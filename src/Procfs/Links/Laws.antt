-- ===== src/Procfs/Links/Laws.antt =====
-- The inode of a link and the state of a process (collector/lib/ProcfsScraper.cpp), from what Linux
-- writes there.
use collector.Prelude.{
  ℕ, suc, ◌+◌, ◌<◌, ◌≡◌, refl, ap, true, none, some, List, [], ◌∷◌, ◌++◌, arith, length, drop,
  length-append,
}
use collector.Prelude.Text.{codes}
use collector.ContainerId.{starts_with, rfind}
use collector.Procfs.Fields.{isdigit}
use collector.Procfs.Fields.Laws.{IsNumber, decimal_value, strtoumax-number}
use collector.Procfs.Links.{
  last_char, parse_link_inode, read_inode, first_char, extract_process_state,
}

drop-append : (xs ys : List ℕ) → drop (length xs) (xs ++ ys) ≡ ys
drop-append [] ys = refl
drop-append (x ∷ xs) ys = drop-append xs ys

starts_with-append : (xs ys : List ℕ) → starts_with xs (xs ++ ys) ≡ true
unfolding starts_with
starts_with-append [] ys = refl
starts_with-append (x ∷ xs) ys = ground (arith, starts_with-append xs ys)

pub last_char-append : (xs : List ℕ) (c : ℕ) → last_char (xs ++ c ∷ []) ≡ c
unfolding last_char
last_char-append [] c = refl
last_char-append (x ∷ []) c = refl
last_char-append (x ∷ y ∷ xs) c = last_char-append (y ∷ xs) c

-- "<prefix>:[<inode>]"
abbrev pub print_link : List ℕ → List ℕ → List ℕ
print_link prefix inode = (prefix ++ b':' ∷ b'[' ∷ inode) ++ b']' ∷ []

print_link-split :
    (prefix inode : List ℕ) → print_link prefix inode ≡ prefix ++ b':' ∷ b'[' ∷ (inode ++ b']' ∷ [])
print_link-split [] inode = refl
print_link-split (c ∷ prefix) inode = ap (λ l. c ∷ l) (print_link-split prefix inode)

-- A link of up to 62 characters, of the given prefix and an inode that fits 64 bits, is read as the
-- inode.
read_inode-print_link :
    (prefix inode : List ℕ)
    → IsNumber inode
    → length (print_link prefix inode) < 63
    → read_inode (some (print_link prefix inode)) prefix ≡ some (decimal_value 0 inode)
unfolding read_inode parse_link_inode starts_with isdigit
read_inode-print_link prefix inode number short =
    let rest = b':' ∷ b'[' ∷ (inode ++ b']' ∷ []) in
    rw
      (
        last_char-append (prefix ++ b':' ∷ b'[' ∷ inode) b']',
        print_link-split prefix inode,
        starts_with-append prefix rest,
        drop-append prefix rest,
        strtoumax-number inode (b']' ∷ []) number refl,
      )
      (ground (arith, short, ap length (print_link-split prefix inode), length-append prefix rest))

-- The last match of a pattern is that of what follows some text, if there is one.
rfind-append :
    (pattern xs ys : List ℕ) (i : ℕ)
    → rfind pattern ys ≡ some i
    → rfind pattern (xs ++ ys) ≡ some (length xs + i)
unfolding rfind
rfind-append pattern [] ys i h = rw h (ground arith)
rfind-append pattern (x ∷ xs) ys i h = rw (rfind-append pattern xs ys i h) (ground arith)

rfind-here :
    (pattern rest : List ℕ) (c : ℕ)
    → rfind (c ∷ pattern) (pattern ++ rest) ≡ none
    → rfind (c ∷ pattern) (c ∷ (pattern ++ rest)) ≡ some 0
unfolding rfind starts_with
rfind-here pattern rest c h = rw (h, starts_with-append pattern rest) (ground arith)

drop_two : (xs ys : List ℕ) (c d : ℕ) → drop (length xs + 0 + 2) (xs ++ c ∷ d ∷ ys) ≡ ys
drop_two [] ys c d = refl
drop_two (x ∷ xs) ys c d =
    let e : suc (length xs) + 0 + 2 ≡ suc (length xs + 0 + 2) = omega arith in
    rw e (drop_two xs ys c d)

-- The state of a process is the character after the last ") " of its `stat`, whatever stands before
-- it in the name of the program.
extract_process_state-stat :
    (name rest : List ℕ) (state : ℕ)
    → rfind (codes ") ") (codes " " ++ state ∷ rest) ≡ none
    → extract_process_state (name ++ (codes ") " ++ state ∷ rest)) ≡ some state
unfolding extract_process_state first_char
extract_process_state-stat name rest state h =
    rw
      (
        rfind-append (codes ") ") name (codes ") " ++ state ∷ rest) 0
            (rfind-here (codes " ") (state ∷ rest) b')' h),
        drop_two name (state ∷ rest) b')' b' ',
      )
      refl
