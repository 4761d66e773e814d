-- ===== src/Clients/Resp.antt =====
-- A reader of the commands that Redis and Tile38 take: an array of bulk strings. It is written from
-- the protocol, not from the writers of examples/benchmark_compare.
use aerocast.Prelude.{
  ◌>>=◌, ℕ, zero, suc, ◌≡◌, refl, true, List, [], ◌∷◌, ◌++◌, length, Option, none, some, leb, ◌==◌,
  if◌then◌else◌, arith, take, drop, take-append, drop-append, append_assoc, length-append,
}
use aerocast.Clients.Text.{decimal, read_number, read_number-decimal, crlf}

-- The rest behind a byte, and behind an end of line.
unfoldable pub after : ℕ → List ℕ → Option (List ℕ)
after c [] = none
after c (d ∷ s) = if d == c then some s else none

-- So many bytes, and the end of line.
read_content : ℕ → List ℕ → Option (List ℕ × List ℕ)
unfolding after
read_content n s = do
  rest ← (if leb n (length s) then some (drop n s) else none)
  r ← after 13 rest
  r' ← after 10 r
  some (take n s, r')

-- `$`, the length, the end of line, the content.
unfoldable pub read_bulk : List ℕ → Option (List ℕ × List ℕ)
unfolding read_content
read_bulk s = do t ← after 36 s; n ← read_number 0 t; read_content n.0 n.1

unfoldable pub read_bulks : ℕ → List ℕ → Option (List (List ℕ) × List ℕ)
read_bulks zero s = some ([], s)
read_bulks (suc n) s = do a ← read_bulk s; rest ← read_bulks n a.1; some (a.0 ∷ rest.0, rest.1)

-- `*`, the number of strings, the end of line, the strings.
unfoldable pub read_command : List ℕ → Option (List (List ℕ) × List ℕ)
read_command s = do t ← after 42 s; n ← read_number 0 t; read_bulks n.0 n.1

-- So many commands.
unfoldable pub read_commands : ℕ → List ℕ → Option (List (List (List ℕ)) × List ℕ)
read_commands zero s = some ([], s)
read_commands (suc n) s = do
  c ← read_command s
  rest ← read_commands n c.1
  some (c.0 ∷ rest.0, rest.1)

-- A bulk string on the wire.
abbrev pub bulk : List ℕ → List ℕ
bulk bytes = 36 ∷ (decimal (length bytes) ++ (crlf ++ (bytes ++ crlf)))

read_content_lem :
    (bytes s : List ℕ) → read_content (length bytes) (bytes ++ (crlf ++ s)) ≡ some (bytes, s)
unfolding read_content after
read_content_lem bytes s =
    rw
      (
        fits,
        take-append (length bytes) bytes (crlf ++ s) refl,
        drop-append (length bytes) bytes (crlf ++ s) refl,
      )
      refl
  where
    fits : leb (length bytes) (length (bytes ++ (crlf ++ s))) ≡ true
    fits = ground (arith, length-append bytes (crlf ++ s))

pub read_bulk-bulk : (bytes s : List ℕ) → read_bulk (bulk bytes ++ s) ≡ some (bytes, s)
unfolding read_bulk after
read_bulk-bulk bytes s = rw (append_assoc (decimal (length bytes)) (crlf ++ (bytes ++ crlf)) s) (
    rw (read_number-decimal (length bytes) ((bytes ++ crlf) ++ s))
      (rw (append_assoc bytes crlf s) (read_content_lem bytes s)))

abbrev pub bulks : List (List ℕ) → List ℕ
bulks [] = []
bulks (a ∷ args) = bulk a ++ bulks args

pub read_bulks-bulks :
    (args : List (List ℕ)) (s : List ℕ)
    → read_bulks (length args) (bulks args ++ s) ≡ some (args, s)
unfolding read_bulks
read_bulks-bulks [] s = refl
read_bulks-bulks (a ∷ args) s =
    rw (append_assoc (bulk a) (bulks args) s)
      (rw (read_bulk-bulk a (bulks args ++ s)) (rw (read_bulks-bulks args s) refl))
