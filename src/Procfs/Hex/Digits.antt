-- ===== src/Procfs/Hex/Digits.antt =====
-- Bytes in hexadecimal digits, and what ReadHexBytes (collector/lib/ProcfsScraper.cpp) makes of one and of
-- a word of four.
use collector.Prelude.{
  ℕ, suc, ◌+◌, ◌*◌, ◌/◌, ◌%◌, ◌<◌, ◌≡◌, ◌≢◌, refl, Bool, true, List, ◌∷◌, arith, ltb, if◌then◌else◌,
}
use collector.Procfs.Fields.{isdigit}
use collector.Procfs.Hex.{is_hex_char, hex_char_to_val, end_chunk, read_hex_from}

abbrev pub hex_digit : ℕ → ℕ
hex_digit d = if ltb d 10 then 48 + d else 55 + d

-- "%02X", before a text.
abbrev pub print_byte : ℕ → List ℕ → List ℕ
print_byte b tail = hex_digit (b / 16) ∷ hex_digit (b % 16) ∷ tail

is_hex_char-hex_digit : (d : ℕ) → d < 16 → is_hex_char (hex_digit d) ≡ true
unfolding is_hex_char isdigit
is_hex_char-hex_digit d h = ground arith

hex_char_to_val-hex_digit : (d : ℕ) → d < 16 → hex_char_to_val (hex_digit d) ≡ d
unfolding hex_char_to_val isdigit
hex_char_to_val-hex_digit d h = ground arith

byte_value :
    (b : ℕ)
    → b < 256
    → hex_char_to_val (hex_digit (b / 16)) * 16 + hex_char_to_val (hex_digit (b % 16)) ≡ b
byte_value b h =
    rw
      (
        hex_char_to_val-hex_digit (b / 16) (omega arith),
        hex_char_to_val-hex_digit (b % 16) (omega arith),
      )
      (omega arith)

end_chunk-within :
    (reverse : Bool) (i : ℕ) (buf : List ℕ) → i % 4 ≢ 3 → end_chunk 4 reverse i buf ≡ buf
unfolding end_chunk
end_chunk-within reverse i buf h = ground arith

end_chunk-full :
    (reverse : Bool) (i b c d e : ℕ) (buf : List ℕ)
    → i % 4 ≡ 3
    → end_chunk 4 reverse i (e ∷ d ∷ c ∷ b ∷ buf)
      ≡ (if reverse then b ∷ c ∷ d ∷ e ∷ buf else e ∷ d ∷ c ∷ b ∷ buf)
unfolding end_chunk
end_chunk-full reverse i b c d e buf h = ground arith

module _ (slack : ℕ) (room : 0 < slack) where
  pub read_hex_from-byte :
      (chunk_size : ℕ) (reverse : Bool) (left i b : ℕ) (buf p : List ℕ)
      → b < 256
      → read_hex_from slack chunk_size reverse (suc left) i buf (print_byte b p)
        ≡ read_hex_from slack chunk_size reverse left
            (i + 1)
            (end_chunk chunk_size reverse i (b ∷ buf))
            p
  unfolding read_hex_from
  read_hex_from-byte chunk_size reverse left i b buf p h =
      rw
        (
          is_hex_char-hex_digit (b / 16) (omega arith),
          is_hex_char-hex_digit (b % 16) (omega arith),
          byte_value b h,
        )
        (ground (arith, room))

  -- Four bytes that are printed as a word.
  pub read_hex_from-word :
      (reverse : Bool) (left i b c d e : ℕ) (buf p : List ℕ)
      → i % 4 ≡ 0
      → (b < 256) × (c < 256) × (d < 256) × (e < 256)
      → read_hex_from slack 4 reverse
          (suc (suc (suc (suc left))))
          i
          buf
          (print_byte b (print_byte c (print_byte d (print_byte e p))))
        ≡ read_hex_from slack 4 reverse left
            (i + 1 + 1 + 1 + 1)
            (if reverse then b ∷ c ∷ d ∷ e ∷ buf else e ∷ d ∷ c ∷ b ∷ buf)
            p
  read_hex_from-word reverse left i b c d e buf p h (hb, hc, hd, he) =
      rw
        (
          read_hex_from-byte 4 reverse (suc (suc (suc left))) i b buf
              (print_byte c (print_byte d (print_byte e p))) hb,
          end_chunk-within reverse i (b ∷ buf) (ground arith),
          read_hex_from-byte 4 reverse (suc (suc left)) (i + 1) c (b ∷ buf)
              (print_byte d (print_byte e p)) hc,
          end_chunk-within reverse (i + 1) (c ∷ b ∷ buf) (ground arith),
          read_hex_from-byte 4 reverse (suc left) (i + 1 + 1) d (c ∷ b ∷ buf) (print_byte e p) hd,
          end_chunk-within reverse (i + 1 + 1) (d ∷ c ∷ b ∷ buf) (ground arith),
          read_hex_from-byte 4 reverse left (i + 1 + 1 + 1) e (d ∷ c ∷ b ∷ buf) p he,
          end_chunk-full reverse (i + 1 + 1 + 1) b c d e buf (omega arith),
        )
        refl
