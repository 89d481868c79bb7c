-- ===== src/Procfs/Hex/Laws.antt =====
-- What ParseEndpoint (collector/lib/ProcfsScraper.cpp) makes of an endpoint as Linux prints it: the
-- address in words of four bytes, each as the host reads it, a colon and the port.
use collector.Prelude.{
  ℕ, suc, ◌+◌, ◌*◌, ◌/◌, ◌%◌, ◌^◌, ◌<◌, ◌≡◌, refl, ap, ◌∙◌, Bool, true, false, some, List, [], ◌∷◌,
  arith, if◌then◌else◌, drop,
}
use collector.Net.Address.{Family, ipv4_address, ipv6_address}
use collector.Net.Bytes.{address_of, word_of, big_endian}
use collector.Net.Endpoint.{address_endpoint}
use collector.Procfs.Hex.{
  end_chunk, read_hex_from, read_hex_bytes, native_uint16, parse_port, parse_endpoint, reverse_onto,
}
use collector.Procfs.Hex.Digits.{print_byte, read_hex_from-byte, read_hex_from-word}

-- Four bytes in network order, and their value.
abbrev pub Word : Type 0
Word = ℕ × ℕ × ℕ × ℕ

abbrev pub AreBytes : Word → Type 0
AreBytes (b, c, d, e) = (b < 256) × (c < 256) × (d < 256) × (e < 256)

abbrev pub word_value : Word → ℕ
word_value (b, c, d, e) = b * 2 ^ 24 + c * 2 ^ 16 + d * 2 ^ 8 + e

-- "%08X" of the word as the host reads it.
abbrev pub print_word : Bool → Word → List ℕ → List ℕ
print_word true (b, c, d, e) tail = print_byte e (print_byte d (print_byte c (print_byte b tail)))
print_word false (b, c, d, e) tail = print_byte b (print_byte c (print_byte d (print_byte e tail)))

-- ":%04X"
abbrev pub print_port : ℕ → List ℕ → List ℕ
print_port port tail = b':' ∷ print_byte (port / 256) (print_byte (port % 256) tail)

abbrev onto : Word → List ℕ → List ℕ
onto (b, c, d, e) buf = e ∷ d ∷ c ∷ b ∷ buf

drop-print_word : (little : Bool) (w : Word) (p : List ℕ) → drop 8 (print_word little w p) ≡ p
drop-print_word true w p = refl
drop-print_word false w p = refl

drop-print_words :
    (little : Bool) (t u v w : Word) (p : List ℕ)
    → drop 32
        (print_word little t (print_word little u (print_word little v (print_word little w p))))
      ≡ p
drop-print_words true t u v w p = refl
drop-print_words false t u v w p = refl

horner :
    (n b c d e : ℕ)
    → (((n * 256 + b) * 256 + c) * 256 + d) * 256 + e ≡ n * 2 ^ 32 + word_value (b, c, d, e)
horner n b c d e = omega arith

address_of-ipv4 :
    (w : Word) → address_of Family.ipv4 (reverse_onto (onto w []) []) ≡ ipv4_address w.0 w.1 w.2 w.3
unfolding address_of word_of big_endian
address_of-ipv4 (b, c, d, e) =
    ap (λ n. record { family = Family.ipv4; hi = n * 2 ^ 32; lo = 0 })
      (horner 0 b c d e ∙ omega arith)

double_word :
    (b c d e f g h i : ℕ)
    → big_endian 0 (b ∷ c ∷ d ∷ e ∷ f ∷ g ∷ h ∷ i ∷ []) * 2 ^ 0
      ≡ word_value (b, c, d, e) * 2 ^ 32 + word_value (f, g, h, i)
unfolding big_endian
double_word b c d e f g h i = omega arith

address_of-ipv6 :
    (t u v w : Word)
    → address_of Family.ipv6 (reverse_onto (onto w (onto v (onto u (onto t [])))) [])
      ≡ ipv6_address (word_value t * 2 ^ 32 + word_value u) (word_value v * 2 ^ 32 + word_value w)
unfolding address_of word_of
address_of-ipv6 (t0, t1, t2, t3) (u0, u1, u2, u3) (v0, v1, v2, v3) (w0, w1, w2, w3) =
    cc (double_word t0 t1 t2 t3 u0 u1 u2 u3, double_word v0 v1 v2 v3 w0 w1 w2 w3)

module _ (slack : ℕ) (room : 0 < slack) where
  read_hex_from-print_word :
      (little : Bool) (left i : ℕ) (w : Word) (buf p : List ℕ)
      → i % 4 ≡ 0
      → AreBytes w
      → read_hex_from slack 4 little (suc (suc (suc (suc left)))) i buf (print_word little w p)
        ≡ read_hex_from slack 4 little left (i + 1 + 1 + 1 + 1) (onto w buf) p
  read_hex_from-print_word true left i (b, c, d, e) buf p h (hb, hc, hd, he) =
      read_hex_from-word slack room true left i e d c b buf p h (he, hd, hc, hb)
  read_hex_from-print_word false left i (b, c, d, e) buf p h bytes =
      read_hex_from-word slack room false left i b c d e buf p h bytes

  read_hex_bytes-ipv4 :
      (little : Bool) (w : Word) (p : List ℕ)
      → AreBytes w
      → read_hex_bytes slack (print_word little w p) 4 1 little ≡ (4, reverse_onto (onto w []) [])
  unfolding read_hex_bytes read_hex_from
  read_hex_bytes-ipv4 little w p bytes =
      ap (λ r. (r.0, reverse_onto r.1 [])) (read_hex_from-print_word little 0 0 w [] p refl bytes)

  read_hex_bytes-ipv6 :
      (little : Bool) (t u v w : Word) (p : List ℕ)
      → AreBytes t × AreBytes u × AreBytes v × AreBytes w
      → read_hex_bytes slack
          (print_word little t (print_word little u (print_word little v (print_word little w p))))
          4
          4
          little
        ≡ (16, reverse_onto (onto w (onto v (onto u (onto t [])))) [])
  unfolding read_hex_bytes read_hex_from
  read_hex_bytes-ipv6 little t u v w p (ht, hu, hv, hw) =
      ap (λ r. (r.0, reverse_onto r.1 []))
        (read_hex_from-print_word little 12 0 t [] _ refl ht
          ∙ read_hex_from-print_word little 8 4 u (onto t []) _ refl hu
          ∙ read_hex_from-print_word little 4 8 v (onto u (onto t [])) _ refl hv
          ∙ read_hex_from-print_word little 0 12 w (onto v (onto u (onto t []))) p refl hw)

  pub read_hex_bytes-byte :
      (b : ℕ) (p : List ℕ) → b < 256 → read_hex_bytes slack (print_byte b p) 1 1 false ≡ (1, b ∷ [])
  unfolding read_hex_bytes read_hex_from end_chunk
  read_hex_bytes-byte b p h =
      ap (λ r. (r.0, reverse_onto r.1 [])) (read_hex_from-byte slack room 1 false 0 0 b [] p h)

  read_hex_bytes-port :
      (little : Bool) (hi lo : ℕ) (p : List ℕ)
      → hi < 256
      → lo < 256
      → read_hex_bytes slack (print_byte hi (print_byte lo p)) 2 1 little
        ≡ (2, if little then lo ∷ hi ∷ [] else hi ∷ lo ∷ [])
  unfolding read_hex_bytes read_hex_from end_chunk
  read_hex_bytes-port true hi lo p h l =
      ap (λ r. (r.0, reverse_onto r.1 []))
        (read_hex_from-byte slack room 2 true 1 0 hi [] (print_byte lo p) h
          ∙ read_hex_from-byte slack room 2 true 0 1 lo (hi ∷ []) p l)
  read_hex_bytes-port false hi lo p h l =
      ap (λ r. (r.0, reverse_onto r.1 []))
        (read_hex_from-byte slack room 2 false 1 0 hi [] (print_byte lo p) h
          ∙ read_hex_from-byte slack room 2 false 0 1 lo (hi ∷ []) p l)

  native_uint16-port :
      (little : Bool) (port : ℕ)
      → native_uint16 little
          (if little then (port % 256) ∷ (port / 256) ∷ [] else (port / 256) ∷ (port % 256) ∷ [])
        ≡ port
  unfolding native_uint16
  native_uint16-port true port = omega arith
  native_uint16-port false port = omega arith

  parse_port-print_port :
      (little : Bool) (port : ℕ) (p : List ℕ) (family : Family) (addr_data : List ℕ)
      → port < 2 ^ 16
      → parse_port slack little
          (print_byte (port / 256) (print_byte (port % 256) p))
          family
          addr_data
        ≡ some (address_endpoint (address_of family addr_data) port, p)
  unfolding parse_port
  parse_port-print_port little port p family addr_data h =
      rw
        (
          read_hex_bytes-port little (port / 256) (port % 256) p (omega arith) (omega arith),
          native_uint16-port little port,
        )
        refl

  pub parse_endpoint-ipv4 :
      (little : Bool) (w : Word) (port : ℕ) (rest : List ℕ)
      → AreBytes w
      → port < 2 ^ 16
      → parse_endpoint slack little (print_word little w (print_port port rest)) Family.ipv4
        ≡ some (address_endpoint (ipv4_address w.0 w.1 w.2 w.3) port, rest)
  unfolding parse_endpoint
  parse_endpoint-ipv4 little w port rest bytes h =
      rw
        (
          read_hex_bytes-ipv4 little w (print_port port rest) bytes,
          drop-print_word little w (print_port port rest),
        )
        (parse_port-print_port little port rest Family.ipv4 (reverse_onto (onto w []) []) h
          ∙ ap (λ a. some (address_endpoint a port, rest)) (address_of-ipv4 w))

  -- An IPv6 endpoint, whose address is four words.
  pub parse_endpoint-ipv6 :
      (little : Bool) (t u v w : Word) (port : ℕ) (rest : List ℕ)
      → AreBytes t × AreBytes u × AreBytes v × AreBytes w
      → port < 2 ^ 16
      → parse_endpoint slack little
          (print_word little t (
            print_word little u (print_word little v (print_word little w (print_port port rest)))))
          Family.ipv6
        ≡ some (
          address_endpoint
              (ipv6_address
                (word_value t * 2 ^ 32 + word_value u)
                (word_value v * 2 ^ 32 + word_value w))
              port,
          rest,
        )
  unfolding parse_endpoint
  parse_endpoint-ipv6 little t u v w port rest bytes h =
      rw
        (
          read_hex_bytes-ipv6 little t u v w (print_port port rest) bytes,
          drop-print_words little t u v w (print_port port rest),
        )
        (parse_port-print_port little port rest Family.ipv6
            (reverse_onto (onto w (onto v (onto u (onto t [])))) []) h
          ∙ ap (λ a. some (address_endpoint a port, rest)) (address_of-ipv6 t u v w))
