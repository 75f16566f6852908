-- ===== src/StorageServer/Permissions.antt =====
-- The permissions that GETSIZE shows (StorageServerModule.c: `executeClientRequest`).
use nfs_mock.Base.{
  ℕ, ◌+◌, ◌*◌, ◌/◌, ◌%◌, ◌^◌, ◌<◌, drop, ◌≡◌, refl, false, [], ◌∷◌, arith, Bytes, length, ◌==◌,
  if◌then◌else◌,
}
use nfs_mock.StorageServer.Files.{letter, permissions}

-- The value of nine letters, as the octal digits of a mode.
value : ℕ → ℕ
value c = if c == b'-' then 0 else 1

pub mode_of : Bytes → ℕ
unfolding value
mode_of [] = 0
mode_of (c ∷ s) = value c * 2 ^ length s + mode_of s

value_lem : (n c : ℕ) → n < 2 → (c == b'-') ≡ false → value (if n == 1 then c else b'-') ≡ n
unfolding value
value_lem n c h k = ground arith

value-letter :
    (mode bit c : ℕ) → (c == b'-') ≡ false → value (letter mode bit c) ≡ (mode / 2 ^ bit) % 2
unfolding letter
value-letter mode bit c h = value_lem ((mode / 2 ^ bit) % 2) c (omega arith) h

-- The nine letters of the permissions stand for the last nine bits of the mode.
pub mode_of-permissions : (mode : ℕ) → mode_of (drop 1 (permissions mode)) ≡ mode % 2 ^ 9
unfolding mode_of permissions
mode_of-permissions mode =
    rw
      (
        value-letter mode 8 b'r' refl,
        value-letter mode 7 b'w' refl,
        value-letter mode 6 b'x' refl,
        value-letter mode 5 b'r' refl,
        value-letter mode 4 b'w' refl,
        value-letter mode 3 b'x' refl,
        value-letter mode 2 b'r' refl,
        value-letter mode 1 b'w' refl,
        value-letter mode 0 b'x' refl,
      )
      (omega arith)
