-- ===== src/Scanner/Utf8/Tables.antt =====
-- The decoder's table, checked over all bytes: how many bytes a sequence has left in each state,
-- and how large the code point can be.
use slox.Prelude.{
  ℕ, ◌+◌, ◌/◌, ◌^◌, ◌≤◌, ◌<◌, Bool, true, ◌&&◌, ◌||◌, ◌≡◌, refl, ◌⊎◌, inl, inr, arith, get_or,
  bit_and, ltb, ◌==◌, all_below, all_below_sound,
}
use slox.Scanner.Utf8.{Decoder, utf8d, utf8_decode}

abbrev next_state : ℕ → ℕ → ℕ
next_state st byte = get_or utf8d (256 + st + get_or utf8d byte 0) 0

abbrev first_codepoint : ℕ → ℕ
first_codepoint byte = bit_and (0xff / 2 ^ get_or utf8d byte 0) byte

-- the first byte of a sequence
abbrev first_test : ℕ → Bool
first_test b =
    let st = next_state 0 b in
    let cp = first_codepoint b in
    st == 0 && ltb cp 128
    || st == 12
    || st == 24 && ltb cp 32
    || (st == 36 || st == 48 || st == 60) && ltb cp 16
    || (st == 72 || st == 84 || st == 96)

first_table : all_below 256 first_test ≡ true
unfolding all_below utf8d
first_table = refl

abbrev goes_to : ℕ → ℕ → ℕ → Bool
goes_to st st' b = next_state st b == st' || next_state st b == 12

goes_24 : all_below 256 (goes_to 24 0) ≡ true
unfolding all_below utf8d
goes_24 = refl

goes_36 : all_below 256 (goes_to 36 24) ≡ true
unfolding all_below utf8d
goes_36 = refl

goes_48 : all_below 256 (goes_to 48 24) ≡ true
unfolding all_below utf8d
goes_48 = refl

goes_60 : all_below 256 (goes_to 60 24) ≡ true
unfolding all_below utf8d
goes_60 = refl

goes_72 : all_below 256 (goes_to 72 36) ≡ true
unfolding all_below utf8d
goes_72 = refl

goes_84 : all_below 256 (goes_to 84 36) ≡ true
unfolding all_below utf8d
goes_84 = refl

goes_96 : all_below 256 (goes_to 96 36) ≡ true
unfolding all_below utf8d
goes_96 = refl

-- `cp` is below the first code point that needs more than `w` bytes
abbrev pub Fits : ℕ → ℕ → Type 0
Fits w cp = (w ≡ 1) × (cp < 0x80) ⊎ (w ≡ 2) × (cp < 0x800) ⊎ (w ≡ 3) × (cp < 0x10000) ⊎ (4 ≤ w)

-- what is known of the decoder in the middle of a sequence, after `w` of its bytes
abbrev pub Pending : ℕ → Decoder → Type 0
Pending w d =
    (d.state ≡ 24) × ((w ≡ 1) × (d.codepoint < 32) ⊎ (w ≡ 2) × (d.codepoint < 1024) ⊎ (3 ≤ w))
    ⊎ ((d.state ≡ 36) ⊎ (d.state ≡ 48) ⊎ (d.state ≡ 60)) × ((w ≡ 1) × (d.codepoint < 16) ⊎ (2 ≤ w))
    ⊎ ((d.state ≡ 72) ⊎ (d.state ≡ 84) ⊎ (d.state ≡ 96)) × (1 ≤ w)

-- after one more byte: a code point, a rejection, or the middle of the sequence still
abbrev pub Decodes : ℕ → Decoder → Type 0
Decodes w d = (d.state ≡ 0) × Fits w d.codepoint ⊎ (d.state ≡ 12) ⊎ Pending w d

pub decode_first :
    (b : ℕ) → b < 256 → Decodes 1 (utf8_decode (record { state = 0; codepoint = 0 }) b)
unfolding utf8_decode
decode_first b h = ground (arith, all_below_sound 256 first_test b first_table h)

pub decode_next :
    (w : ℕ) (d : Decoder) (b : ℕ) → b < 256 → Pending w d → Decodes (w + 1) (utf8_decode d b)
unfolding utf8_decode
decode_next w d b h (inl (e, p)) =
    rw e (ground (arith, all_below_sound 256 (goes_to 24 0) b goes_24 h))
decode_next w d b h (inr (inl (inl e, p))) =
    rw e (ground (arith, all_below_sound 256 (goes_to 36 24) b goes_36 h))
decode_next w d b h (inr (inl (inr (inl e), p))) =
    rw e (ground (arith, all_below_sound 256 (goes_to 48 24) b goes_48 h))
decode_next w d b h (inr (inl (inr (inr e), p))) =
    rw e (ground (arith, all_below_sound 256 (goes_to 60 24) b goes_60 h))
decode_next w d b h (inr (inr (inl e, p))) =
    rw e (ground (arith, all_below_sound 256 (goes_to 72 36) b goes_72 h))
decode_next w d b h (inr (inr (inr (inl e), p))) =
    rw e (ground (arith, all_below_sound 256 (goes_to 84 36) b goes_84 h))
decode_next w d b h (inr (inr (inr (inr e), p))) =
    rw e (ground (arith, all_below_sound 256 (goes_to 96 36) b goes_96 h))

-- the terminator is rejected in the middle of a sequence
pub decode_nul : (w : ℕ) (d : Decoder) → Pending w d → (utf8_decode d 0).state ≡ 12
unfolding utf8_decode utf8d
decode_nul w d (inl (e, p)) = rw e
decode_nul w d (inr (inl (inl e, p))) = rw e
decode_nul w d (inr (inl (inr (inl e), p))) = rw e
decode_nul w d (inr (inl (inr (inr e), p))) = rw e
decode_nul w d (inr (inr (inl e, p))) = rw e
decode_nul w d (inr (inr (inr (inl e), p))) = rw e
decode_nul w d (inr (inr (inr (inr e), p))) = rw e
