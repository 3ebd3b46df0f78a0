-- ===== src/Header/Memory.antt =====
-- The memory that the reader of the header lays out, in plain numbers.
use mcp_forth.Prelude.{
  ℕ, ◌+◌, ◌-◌, ◌*◌, ◌/◌, ◌≤◌, ◌<◌, ◌≡◌, false, arith, le→ltb_false, is_negative, mul_word, bias,
  slt,
}
use mcp_forth.Header.{bytes_remaining}
use mcp_forth.Header.Run.{words_at, infos_at, used_end}

-- What remains of a memory that is small, at a place within.
bytes_remaining-plain :
    (start len p : ℕ)
    → start + len < 4294967292
    → start ≤ p
    → p ≤ start + len
    → bytes_remaining start p len ≡ start + len - p
bytes_remaining-plain start len p below from to = omega arith

pub small-is_negative : (n : ℕ) → n < 2147483648 → is_negative n ≡ false
small-is_negative n h = ground arith

pub small-slt : (a b : ℕ) → a < 2147483648 → b ≤ a → slt a b ≡ false
small-slt a b ha h = le→ltb_false (bias a) (bias b) (omega arith)

-- The memory that the reader lays out, in plain numbers.
module _ (start len n_variables n_words n_callbacks : ℕ) (below : start + len < 4294967292)
    (small : len < 2147483648)
    (room : 6 + 4 * n_variables + 4 * n_words + 5 * n_callbacks ≤ len) where
  words_at-plain : words_at start n_variables ≡ (start + 3) / 4 * 4 + 4 * n_variables
  words_at-plain = omega arith

  infos_at-plain :
      infos_at start n_variables n_words ≡ (start + 3) / 4 * 4 + 4 * n_variables + 4 * n_words
  infos_at-plain = omega arith

  used_end-plain :
      used_end start n_variables n_words n_callbacks
      ≡ ((start + 3) / 4 * 4 + 4 * n_variables + 4 * n_words + n_callbacks + 3) / 4 * 4
        + 4 * n_callbacks
  used_end-plain = omega arith

  pub used_end-le : used_end start n_variables n_words n_callbacks ≤ start + len
  used_end-le = rw used_end-plain (omega arith)

  pub words_fit : is_negative (bytes_remaining start (words_at start n_variables) len) ≡ false
  words_fit =
      rw
        (bytes_remaining-plain start len (words_at start n_variables) below
          (rw words_at-plain (omega arith)) (rw words_at-plain (omega arith)))
        (small-is_negative _ (omega arith))

  pub pairs_fit :
      slt (bytes_remaining start (words_at start n_variables) len) (mul_word n_words 4) ≡ false
  pairs_fit =
      rw
        (bytes_remaining-plain start len (words_at start n_variables) below
          (rw words_at-plain (omega arith)) (rw words_at-plain (omega arith)))
        (small-slt _ _ (omega arith) (rw words_at-plain (omega arith)))

  pub end_fits :
      is_negative (bytes_remaining start (used_end start n_variables n_words n_callbacks) len)
      ≡ false
  end_fits =
      rw
        (bytes_remaining-plain start len (used_end start n_variables n_words n_callbacks) below
          (rw used_end-plain (omega arith)) used_end-le)
        (small-is_negative _ (omega arith))
