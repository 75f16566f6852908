-- ===== src/NamingServer/Logging.antt =====
-- `loggingfunction` (NamingServerModule.c) and the two globals through which it is given a message.
use nfs_mock.Base.{
  ◌-◌, ◌≡◌, refl, ap, ◌∙◌, sym, Bool, true, false, Option, none, some, List, [], ◌∷◌, ◌++◌,
  append_assoc, append-nil, Bytes, codes, length, take,
}
use nfs_mock.Run.{Run, done, fault, ◌>>=◌}

-- `logmessage`, NULL or a text, and what is in log.txt
pub record Log : Type 0 where
  pub log_message : Option Bytes
  pub log_file : Bytes

-- One line: the time without its last byte, and the message.
abbrev pub log_line : (time text : Bytes) → Bytes
log_line time text = take (length time - 1) time ++ (codes ": " ++ (text ++ codes "\n"))

unfoldable pub append_line : (time : Bytes) → Option Bytes → (file : Bytes) → Run Log
append_line time none file = fault
append_line time (some text) file =
    done (record { log_message = none; log_file = file ++ log_line time text })

-- Whether the file can be opened, and what `asctime` gives. A `%s` of NULL is a fault.
unfoldable pub logging_function : (opened : Bool) (time : Bytes) → Log → Run Log
unfolding append_line
logging_function false time log = done log
logging_function true time log = append_line time log.log_message log.log_file

-- What a thread does with the log: `logmessage = text;`, or the call.
pub data LogStep : Type 0 where
  message : Bytes → LogStep
  call : (opened : Bool) (time : Bytes) → LogStep

unfoldable pub log_step : LogStep → Log → Run Log
unfolding logging_function
log_step (message text) log = done (record log { log_message = some text })
log_step (call opened time) log = logging_function opened time log

unfoldable pub log_steps : List LogStep → Log → Run Log
unfolding log_step
log_steps [] log = done log
log_steps (s ∷ steps) log = log_step s log >>= log_steps steps

-- The steps of messages that are logged one after the other.
abbrev pub one_by_one : List (Bytes × Bytes) → List LogStep
one_by_one [] = []
one_by_one ((time, text) ∷ entries) = message text ∷ call true time ∷ one_by_one entries

abbrev pub log_lines : List (Bytes × Bytes) → Bytes
log_lines [] = []
log_lines ((time, text) ∷ entries) = log_line time text ++ log_lines entries

-- what a file holds after some lines
appended :
    (entries : List (Bytes × Bytes)) (file : Bytes)
    → log_steps (one_by_one entries) (record { log_message = none; log_file = file })
      ≡ done (record { log_message = none; log_file = file ++ log_lines entries })
unfolding log_steps
appended [] file =
    ap (λ f. done (record { log_message = none; log_file = f })) (sym (append-nil file))
appended ((time, text) ∷ entries) file =
    appended entries (file ++ log_line time text)
    ∙ ap (λ f. done (record { log_message = none; log_file = f }))
        (append_assoc file (log_line time text) (log_lines entries))

-- Messages that are logged one after the other, while the file can be opened, stand in it one line
-- each, in their order, behind what it held. If a thread sets its message between another's message
-- and call, the second of the two calls is given NULL, whatever the log held.
pub log_steps_lem :
    (entries : List (Bytes × Bytes)) (file text text' time time' : Bytes) (log : Log)
    → (log_steps (one_by_one entries) (record { log_message = none; log_file = file })
        ≡ done (record { log_message = none; log_file = file ++ log_lines entries }))
      × (log_steps (message text ∷ message text' ∷ call true time ∷ call true time' ∷ []) log
          ≡ fault)
unfolding log_steps
log_steps_lem entries file text text' time time' log = (appended entries file, refl)
