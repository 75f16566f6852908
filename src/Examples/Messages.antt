-- ===== src/Examples/Messages.antt =====
-- Messages that one side sends and the other reads.
use nfs_mock.Base.{◌≡◌, refl, none, some, [], ◌∷◌, ◌++◌, arith, codes, c_str, ◌==◌}
use nfs_mock.Decimal.{decimal}
use nfs_mock.NamingServer.{listed}
use nfs_mock.Run.{done}
use nfs_mock.NamingServer.Index.{assoc_index}
use nfs_mock.NamingServer.State.{initialize_naming_server}
use nfs_mock.NamingServer.Listing.{list_all}
use nfs_mock.NamingServer.Locate.{locate_reply, address_reply}
use nfs_mock.NamingServer.Copy.{copy_reaction}
use nfs_mock.Client.Session.{to_naming_server, printed, Peer, received}
use nfs_mock.Client.Locate.{
  read_errors, write_errors, size_errors, client_read, client_write, client_get_size,
}
use nfs_mock.Client.Replies.{client_copy}
use nfs_mock.Client.Listing.{show_listing}
use nfs_mock.Protocol.Listing.{
  shown_servers, rounds_needed, show_listing-list_all, show_listing_stuck,
}
use nfs_mock.Protocol.Address.{told, locate_reply-understood}
use nfs_mock.Protocol.CopyReply.{told_last, copied-unheard}
use nfs_mock.Examples.Servers.{server_a}
use nfs_mock.Checks.{every-not-All}

show_listing-list_all_example :
    show_listing 4 (list_all (server_a ∷ [])) ≡ some (shown_servers 0 (server_a ∷ []))
unfolding rounds_needed listed
show_listing-list_all_example =
    show_listing-list_all (server_a ∷ []) 4
      (
        (
          omega arith,
          (
            (
              (omega arith, omega arith),
              ((omega arith, omega arith), ((omega arith, omega arith), tt)),
            ),
            tt,
          ),
        ),
        tt,
      )
      (omega arith)

show_listing_stuck_example : show_listing 100 (codes "File not Found") ≡ none
show_listing_stuck_example =
    show_listing_stuck 100 b'F' (codes "ile not Found") (omega arith) (omega arith)

-- the naming server has told the address of `server_a`, which answers with a text
abbrev peer : Peer
peer = record {
  ack = received 1;
  response = address_reply server_a ++ 0 ∷ [];
  storage = λ ip port request. some (codes "hello");
}

locate_reply-understood_example :
    (client_read peer (codes "READ ./a")
      ≡ done (
          to_naming_server (codes "READ ./a")
          ∷ told read_errors
              (printed (codes "File is read as :\n") ∷ [])
              peer
              (codes "READ ./a")
              (some server_a)))
    × (client_write peer (codes "READ ./a")
        ≡ done (
            to_naming_server (codes "READ ./a")
            ∷ printed (codes "SEnten\n")
            ∷ told write_errors [] peer (codes "READ ./a") (some server_a)))
    × (client_get_size peer (codes "READ ./a")
        ≡ done (
            to_naming_server (codes "READ ./a")
            ∷ told size_errors [] peer (codes "READ ./a") (some server_a)))
unfolding c_str locate_reply address_reply decimal
locate_reply-understood_example =
    locate_reply-understood peer (codes "READ ./a") (some server_a) 1
      (every-not-All (λ c. c == b' ') (codes "127.0.0.1") refl, (λ e. cc), omega arith) refl
      (omega arith) refl

abbrev copy_peer : Peer
copy_peer = record {
  ack = received 0;
  response = 11 ∷ 0 ∷ 0 ∷ 0 ∷ 0 ∷ [];
  storage = λ ip port request. none;
}

copied-unheard_example :
    client_copy copy_peer (codes "COPY ./a ./b")
    ≡ done (to_naming_server (codes "COPY ./a ./b") ∷ printed (codes "index_case = 0\n") ∷ [])
unfolding copy_reaction told_last c_str
copied-unheard_example =
    copied-unheard assoc_index (initialize_naming_server assoc_index) server_a server_a
      (codes "SEND", codes "RECEIVE") [] copy_peer (codes "COPY ./a ./b") 0 refl (omega arith) refl
