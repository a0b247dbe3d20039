-- ===== src/Uart/Lines.antt =====
-- uart.rs: what a text looks like on the line.
use rustsbi_hifive_unmatched.Base.{
  ℕ, suc, ◌+◌, ◌≡◌, refl, ◌==◌, if◌then◌else◌, Bool, true, not, ◌&&◌, ◌||◌, List, [], ◌∷◌, ◌++◌,
  map, arith, ◌∙◌, sym,
}
use mathlib.Core.List.{append_assoc, append-nil}
use rustsbi_hifive_unmatched.Uart.{Uart, uart_base, serial_out, write, write_all}

-- A text without some byte.
abbrev pub without : ℕ → List ℕ → List ℕ
without c [] = []
without c (b ∷ bs) = if b == c then without c bs else b ∷ without c bs

-- Every line feed of a text stands right behind a carriage return; `p` is the byte before the text.
abbrev pub no_bare_feed : ℕ → List ℕ → Bool
no_bare_feed p [] = true
no_bare_feed p (b ∷ bs) = (not (b == 10) || p == 13) && no_bare_feed b bs

-- How many line feeds of a text do not stand behind a carriage return.
abbrev pub bare_feeds : ℕ → List ℕ → ℕ
bare_feeds p [] = 0
bare_feeds p (b ∷ bs) =
    let rest = bare_feeds b bs in if b == 10 && not (p == 13) then suc rest else rest

abbrev pub length : List ℕ → ℕ
length [] = 0
length (b ∷ bs) = suc (length bs)

-- The bytes that are sent for a text.
sent : ℕ → List ℕ → List ℕ
sent p [] = []
sent p (b ∷ bs) =
    let rest = sent b bs in if b == 10 && not (p == 13) then 13 ∷ b ∷ rest else b ∷ rest

abbrev pub to_holding_register : ℕ → ℕ × ℕ
to_holding_register b = (uart_base, b)

write-written :
    (b : ℕ) (rest : List ℕ) (u : Uart)
    → ((write b u).written ++ map to_holding_register (sent b rest))
      ≡ (u.written ++ map to_holding_register (sent u.pre_byte (b ∷ rest)))
unfolding write sent serial_out
write-written b rest u =
    let m = map to_holding_register (sent b rest) in
    let cr : List (ℕ × ℕ) = to_holding_register 13 ∷ [] in
    let byte : List (ℕ × ℕ) = to_holding_register b ∷ [] in
    ground (
      arith,
      append_assoc u.written byte m,
      append_assoc (u.written ++ cr) byte m,
      append_assoc u.written cr (byte ++ m),
    )

write_all-written :
    (bs : List ℕ) (u : Uart)
    → (write_all bs u).written ≡ (u.written ++ map to_holding_register (sent u.pre_byte bs))
unfolding write_all sent
write_all-written [] u = sym (append-nil u.written)
write_all-written (b ∷ bs) u = write_all-written bs (write b u) ∙ write-written b bs u

sent-no_bare_feed : (p : ℕ) (bs : List ℕ) → no_bare_feed p (sent p bs) ≡ true
unfolding sent
sent-no_bare_feed p [] = refl
sent-no_bare_feed p (b ∷ bs) = ground (arith, sent-no_bare_feed b bs)

sent-without : (p : ℕ) (bs : List ℕ) → without 13 (sent p bs) ≡ without 13 bs
unfolding sent
sent-without p [] = refl
sent-without p (b ∷ bs) = ground (arith, sent-without b bs)

length-sent : (p : ℕ) (bs : List ℕ) → length (sent p bs) ≡ length bs + bare_feeds p bs
unfolding sent
length-sent p [] = refl
length-sent p (b ∷ bs) = ground (arith, length-sent b bs)

-- Writing a text writes bytes to the holding register and to no other, in which every line feed
-- stands right behind a carriage return, and which are the text but for carriage returns; one byte
-- is added for each line feed that had none before it, and no other.
pub write_all_lines :
    (bs : List ℕ) (u : Uart)
    → (line : List ℕ) × ((write_all bs u).written ≡ (u.written ++ map to_holding_register line))
      × (no_bare_feed u.pre_byte line ≡ true)
      × (without 13 line ≡ without 13 bs)
      × (length line ≡ length bs + bare_feeds u.pre_byte bs)
write_all_lines bs u = (
  sent u.pre_byte bs,
  write_all-written bs u,
  sent-no_bare_feed u.pre_byte bs,
  sent-without u.pre_byte bs,
  length-sent u.pre_byte bs,
)

pub write_all-append :
    (xs ys : List ℕ) (u : Uart) → write_all (xs ++ ys) u ≡ write_all ys (write_all xs u)
unfolding write_all
write_all-append [] ys u = refl
write_all-append (x ∷ xs) ys u = write_all-append xs ys (write x u)
