-- ===== src/Clients/Text.antt =====
-- ASCII texts as bytes, and the decimal numbers of strconv.Itoa and strconv.AppendUint.
use Prim.Native.String.{String, [] as text_nil, ◌∷◌ as text_cons}
use Prim.Native.Char.{code}
use aerocast.Prelude.{
  ℕ, zero, suc, ◌+◌, ◌-◌, ◌*◌, ◌/◌, ◌%◌, ◌<◌, ◌≡◌, ◌∙◌, refl, ap, Bool, ◌&&◌, List, [], ◌∷◌, ◌++◌,
  Option, none, some, leb, ltb, ◌==◌, ltb→lt, Bool-cases, inl, inr, if◌then◌else◌, arith,
  append_assoc,
}

-- The bytes of a text of ASCII characters.
abbrev pub ascii : String → List ℕ
ascii s = elim s [ text_nil ↦ [] | text_cons c (rest → r) ↦ code c ∷ r ]

-- The digits of a number, at most as many as the fuel.
decimal_loop : ℕ → ℕ → List ℕ
decimal_loop zero n = []
decimal_loop (suc fuel) n =
    let rest = decimal_loop fuel (n / 10) in
    if ltb n 10 then (48 + n) ∷ [] else rest ++ (48 + n % 10) ∷ []

unfoldable pub decimal : ℕ → List ℕ
unfolding decimal_loop
decimal n = decimal_loop (suc n) n

-- A reader of decimal numbers: the digits in front of the list, added to a value, up to a line's end.
abbrev is_digit : ℕ → Bool
is_digit c = leb 48 c && ltb c 58

end_of_line : ℕ → List ℕ → Option (ℕ × List ℕ)
end_of_line n [] = none
end_of_line n (c ∷ []) = none
end_of_line n (c ∷ d ∷ s) = if (c == 13) && (d == 10) then some (n, s) else none

unfoldable pub read_number : ℕ → List ℕ → Option (ℕ × List ℕ)
unfolding end_of_line
read_number n [] = none
read_number n (c ∷ s) =
    let more = read_number (10 * n + (c - 48)) s in
    if is_digit c then more else end_of_line n (c ∷ s)

abbrev pub crlf : List ℕ
crlf = 13 ∷ 10 ∷ []

read_number-digit :
    (m d : ℕ) (s : List ℕ) → d < 10 → read_number m ((48 + d) ∷ s) ≡ read_number (10 * m + d) s
unfolding read_number
read_number-digit m d s h = ground (arith, h)

-- Reading on over the digits that decimal prints.
read_number-decimal_loop :
    (fuel n m : ℕ) (s : List ℕ)
    → n < fuel
    → (k : ℕ) × (read_number m (decimal_loop fuel n ++ s) ≡ read_number (k * m + n) s)
unfolding decimal_loop
read_number-decimal_loop zero n m s h = absurd (omega arith)
read_number-decimal_loop (suc fuel) n m s h = elim (Bool-cases (ltb n 10)) [
  | inl small ↦ (10, rw small (read_number-digit m n s (ltb→lt n 10 small)))
  | inr big ↦
      let (k, read) =
        read_number-decimal_loop fuel (n / 10) m ((48 + n % 10) ∷ s) (ground (arith, big, h)) in
      (
        10 * k,
        rw big (
            ap (read_number m) (append_assoc (decimal_loop fuel (n / 10)) ((48 + n % 10) ∷ []) s)
            ∙ read
            ∙ read_number-digit (k * m + n / 10) (n % 10) s (omega arith)
            ∙ ap (λ v. read_number v s) (omega arith)),
      )
]

-- The number that is printed is read again.
pub read_number-decimal :
    (n : ℕ) (s : List ℕ) → read_number 0 (decimal n ++ (13 ∷ 10 ∷ s)) ≡ some (n, s)
unfolding decimal
read_number-decimal n s =
    let (k, read) = read_number-decimal_loop (suc n) n 0 (13 ∷ 10 ∷ s) (omega arith) in
    read ∙ (unfold read_number end_of_line in refl ∙ ap (λ v. some (v, s)) (omega arith))
