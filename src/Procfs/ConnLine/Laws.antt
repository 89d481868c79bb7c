-- ===== src/Procfs/ConnLine/Laws.antt =====
-- What ParseConnLine (collector/lib/ProcfsScraper.cpp) reads from a line as Linux prints it.
use collector.Prelude.{
  ℕ, suc, ◌+◌, ◌*◌, ◌/◌, ◌^◌, ◌<◌, ◌≡◌, refl, sym, ap, ◌∙◌, Bool, true, false, ◌||◌, some, List, [],
  ◌∷◌, ◌++◌, arith, ◌==◌, length,
}
use collector.Net.Address.{Family, ipv4_address, ipv6_address}
use collector.Net.Endpoint.{Endpoint, address_endpoint}
use collector.Procfs.Fields.{peek, isspace, isdigit, strip_spaces, rep_nextfield}
use collector.Procfs.Fields.Laws.{
  all_chars, word_char, IsWord, IsGap, IsNumber, AreFields, print_fields, decimal_value,
  nextfield-gap, rep_nextfield-fields, strtoumax-number, peek-word, digit-first,
}
use collector.Procfs.Hex.{parse_endpoint}
use collector.Procfs.Hex.Digits.{hex_digit, print_byte}
use collector.Procfs.Hex.Laws.{
  Word, AreBytes, word_value, print_word, print_port, parse_endpoint-ipv4, parse_endpoint-ipv6,
  read_hex_bytes-byte,
}
use collector.Procfs.ConnLine.{
  ConnLineData, parse_inode, parse_state, parse_remote, parse_conn_line,
}

-- An address in words and a port.
pub data Printed : Type 0 where
  printed_ipv4 : Word → ℕ → Printed
  printed_ipv6 : Word → Word → Word → Word → ℕ → Printed

abbrev pub printed_family : Printed → Family
printed_family (Printed.printed_ipv4 w port) = Family.ipv4
printed_family (Printed.printed_ipv6 t u v w port) = Family.ipv6

abbrev pub printed_endpoint : Printed → Endpoint
printed_endpoint (Printed.printed_ipv4 (b, c, d, e) port) =
    address_endpoint (ipv4_address b c d e) port
printed_endpoint (Printed.printed_ipv6 t u v w port) =
    address_endpoint
      (ipv6_address (word_value t * 2 ^ 32 + word_value u) (word_value v * 2 ^ 32 + word_value w))
      port

abbrev pub print_endpoint : Bool → Printed → List ℕ → List ℕ
print_endpoint little (Printed.printed_ipv4 w port) tail =
    print_word little w (print_port port tail)
print_endpoint little (Printed.printed_ipv6 t u v w port) tail =
    print_word little t
      (print_word little u (print_word little v (print_word little w (print_port port tail))))

abbrev pub IsPrinted : Printed → Type 0
IsPrinted (Printed.printed_ipv4 w port) = AreBytes w × (port < 2 ^ 16)
IsPrinted (Printed.printed_ipv6 t u v w port) =
    (AreBytes t × AreBytes u × AreBytes v × AreBytes w) × (port < 2 ^ 16)

parse_endpoint-print_endpoint :
    (slack : ℕ)
    → 0 < slack
    → (little : Bool) (e : Printed) (rest : List ℕ) → IsPrinted e
    → parse_endpoint slack little (print_endpoint little e rest) (printed_family e)
      ≡ some (printed_endpoint e, rest)
parse_endpoint-print_endpoint slack room little (Printed.printed_ipv4 w port) rest (h, k) =
    parse_endpoint-ipv4 slack room little w port rest h k
parse_endpoint-print_endpoint slack room little (Printed.printed_ipv6 t u v w port) rest (h, k) =
    parse_endpoint-ipv6 slack room little t u v w port rest h k

word_char-hex_digit : (d : ℕ) → d < 16 → word_char (hex_digit d) ≡ true
unfolding isspace
word_char-hex_digit d h = ground arith

word_char-word :
    (little : Bool) (w : Word) (p : List ℕ)
    → AreBytes w
    → word_char (peek (print_word little w p)) ≡ true
word_char-word true (b, c, d, e) p h = word_char-hex_digit (e / 16) (omega (arith, h.3))
word_char-word false (b, c, d, e) p h = word_char-hex_digit (b / 16) (omega (arith, h.0))

word_char-print_endpoint :
    (little : Bool) (e : Printed) (rest : List ℕ)
    → IsPrinted e
    → word_char (peek (print_endpoint little e rest)) ≡ true
word_char-print_endpoint little (Printed.printed_ipv4 w port) rest h =
    word_char-word little w (print_port port rest) h.0
word_char-print_endpoint little (Printed.printed_ipv6 t u v w port) rest h =
    word_char-word little t
      (print_word little u (print_word little v (print_word little w (print_port port rest)))) h.0.0

word_char-byte : (b : ℕ) (p : List ℕ) → b < 256 → word_char (peek (print_byte b p)) ≡ true
word_char-byte b p h = word_char-hex_digit (b / 16) (omega arith)

word_char-digit : (c : ℕ) → isdigit c ≡ true → word_char c ≡ true
unfolding isspace isdigit
word_char-digit c h = ground arith

-- A line of `net/tcp`: the blanks in front, the number of the slot, the endpoints, the state, the
-- fields up to the inode, its digits and what follows. There is a gap before each field.
pub record Line : Type 0 where
  pub blanks : List ℕ
  pub slot : List ℕ
  pub local : Printed
  pub remote : Printed
  pub state : ℕ
  pub fields : List (List ℕ × List ℕ)
  pub inode : List ℕ
  pub tail : List ℕ
  pub local_gap : List ℕ
  pub remote_gap : List ℕ
  pub state_gap : List ℕ
  pub inode_gap : List ℕ

abbrev pub print_from_state : Line → List ℕ
print_from_state l = print_byte l.state (print_fields l.fields (l.inode_gap ++ (l.inode ++ l.tail)))

abbrev pub print_from_remote : Bool → Line → List ℕ
print_from_remote little l = print_endpoint little l.remote (l.state_gap ++ print_from_state l)

abbrev pub print_from_local : Bool → Line → List ℕ
print_from_local little l =
    print_endpoint little l.local (l.remote_gap ++ print_from_remote little l)

abbrev pub print_line : Bool → Line → List ℕ
print_line little l = l.blanks ++ (l.slot ++ (l.local_gap ++ print_from_local little l))

pub record IsLine (family : Family) (l : Line) : Type 0 where
  pub blanks_blank : all_chars isspace l.blanks ≡ true
  pub slot_word : IsWord l.slot
  pub local_printed : IsPrinted l.local
  pub remote_printed : IsPrinted l.remote
  pub local_family : printed_family l.local ≡ family
  pub remote_family : printed_family l.remote ≡ family
  pub state_byte : l.state < 256
  pub five_fields : length l.fields ≡ 5
  pub fields_fields : AreFields l.fields
  pub inode_number : IsNumber l.inode
  pub ended : (peek l.tail == 0 || isspace (peek l.tail)) ≡ true
  pub local_gap_gap : IsGap l.local_gap
  pub remote_gap_gap : IsGap l.remote_gap
  pub state_gap_gap : IsGap l.state_gap
  pub inode_gap_gap : IsGap l.inode_gap

abbrev pub line_data : Line → ConnLineData
line_data l = record {
  local = printed_endpoint l.local;
  remote = printed_endpoint l.remote;
  state = l.state;
  inode = decimal_value 0 l.inode;
}

strip_spaces-blanks :
    (b p : List ℕ)
    → all_chars isspace b ≡ true
    → isspace (peek p) ≡ false
    → strip_spaces (b ++ p) ≡ p
unfolding strip_spaces
strip_spaces-blanks [] [] h f = refl
strip_spaces-blanks [] (c ∷ p) h f = ground arith
strip_spaces-blanks (c ∷ b) p h f = ground (arith, strip_spaces-blanks b p)

not_digit : (c : ℕ) → (c == 0 || isspace c) ≡ true → isdigit c ≡ false
unfolding isspace isdigit
not_digit c h = ground arith

not_space : (c : ℕ) → word_char c ≡ true → isspace c ≡ false
not_space c h = ground arith

module _ (slack : ℕ) (room : 0 < slack) (little : Bool) (family : Family) (l : Line)
    (line : IsLine family l) where
  six_fields :
      rep_nextfield slack 6 (print_fields l.fields (l.inode_gap ++ (l.inode ++ l.tail)))
      ≡ some (l.inode ++ l.tail)
  six_fields =
      let text = print_fields l.fields (l.inode_gap ++ (l.inode ++ l.tail)) in
      ap (λ n. rep_nextfield slack (suc n) text) (sym line.five_fields)
      ∙ rep_nextfield-fields slack room [] l.fields l.inode_gap (l.inode ++ l.tail) refl
          line.fields_fields line.inode_gap_gap
          (word_char-digit (peek (l.inode ++ l.tail))
            (digit-first l.inode l.tail line.inode_number.filled))

  parse_inode-line :
      (local remote : Endpoint) (state : ℕ)
      → parse_inode local remote state (l.inode ++ l.tail)
        ≡ some (record {
          local = local;
          remote = remote;
          state = state;
          inode = decimal_value 0 l.inode;
        })
  unfolding parse_inode
  parse_inode-line local remote state =
      rw (strtoumax-number l.inode l.tail line.inode_number (not_digit (peek l.tail) line.ended))
        (ground (arith, line.ended))

  parse_state-line :
      (local remote : Endpoint)
      → parse_state slack local remote (print_from_state l)
        ≡ some (record {
          local = local;
          remote = remote;
          state = l.state;
          inode = decimal_value 0 l.inode;
        })
  unfolding parse_state
  parse_state-line local remote =
      rw
        (
          read_hex_bytes-byte slack room l.state
              (print_fields l.fields (l.inode_gap ++ (l.inode ++ l.tail))) line.state_byte,
          six_fields,
        )
        (parse_inode-line local remote l.state)

  parse_remote-line :
      (local : Endpoint)
      → parse_remote slack little family local (print_from_remote little l)
        ≡ some (record {
          local = local;
          remote = printed_endpoint l.remote;
          state = l.state;
          inode = decimal_value 0 l.inode;
        })
  unfolding parse_remote
  parse_remote-line local =
      rw
        (
          sym line.remote_family,
          parse_endpoint-print_endpoint slack room little l.remote
              (l.state_gap ++ print_from_state l) line.remote_printed,
          nextfield-gap slack room [] l.state_gap (print_from_state l) refl line.state_gap_gap (
              word_char-byte l.state (print_fields l.fields (l.inode_gap ++ (l.inode ++ l.tail)))
                line.state_byte),
        )
        (parse_state-line local (printed_endpoint l.remote))

  -- A line of a `net/tcp` file is read as its endpoints, its state and its inode, if its addresses are
  -- of the given family, the inode fits 64 bits, and there are five more fields before the inode.
  pub parse_conn_line-print_line :
      parse_conn_line slack little (print_line little l) family ≡ some (line_data l)
  unfolding parse_conn_line
  parse_conn_line-print_line =
      let from_local = print_from_local little l in
      let text = l.slot ++ (l.local_gap ++ from_local) in
      rw
        (
          strip_spaces-blanks l.blanks text line.blanks_blank (
              not_space (peek text) (
                ap word_char (peek-word l.slot (l.local_gap ++ from_local) line.slot_word.filled)
                ∙ line.slot_word.filled)),
          nextfield-gap slack room l.slot l.local_gap from_local line.slot_word.chars
              line.local_gap_gap
              (word_char-print_endpoint little l.local (l.remote_gap ++ print_from_remote little l)
                line.local_printed),
          sym line.local_family,
          parse_endpoint-print_endpoint slack room little l.local
              (l.remote_gap ++ print_from_remote little l) line.local_printed,
          nextfield-gap slack room [] l.remote_gap (print_from_remote little l) refl
              line.remote_gap_gap
              (word_char-print_endpoint little l.remote (l.state_gap ++ print_from_state l)
                line.remote_printed),
          line.local_family,
        )
        (parse_remote-line (printed_endpoint l.local))
