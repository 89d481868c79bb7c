-- ===== src/Procfs/Process/Laws.antt =====
-- What ProcessScraper (collector/lib/ProcfsScraper.cpp) makes of the exe link and of the command line.
use collector.Prelude.{
  ℕ, ◌<◌, ◌≡◌, refl, ap, ◌∙◌, sym, Bool, true, false, ◌&&◌, not, Option, some, List, [], ◌∷◌, ◌++◌,
  arith, ◌==◌, length,
}
use mathlib.Core.List.{append-nil, append_assoc}
use collector.Procfs.Fields.{peek}
use collector.Procfs.Links.{dir_container_id, c_string}
use collector.Procfs.Process.{
  after_slash, comm_of, read_process_exe, CmdlineState, cmdline_char, cmdline_loop,
  read_process_cmdline, ProcessInfo, scrape_process, scrape_exe, scrape_cmdline,
}

abbrev pub no_char : ℕ → List ℕ → Bool
no_char c [] = true
no_char c (x ∷ str) = not (x == c) && no_char c str

-- No argument holds a NUL.
abbrev pub AreArgs : List (List ℕ) → Type 0
AreArgs [] = Unit
AreArgs (arg ∷ args) = (no_char 0 arg ≡ true) × AreArgs args

-- The arguments as the kernel writes them, each with a NUL behind.
abbrev pub print_args : List (List ℕ) → List ℕ
print_args [] = []
print_args (arg ∷ args) = arg ++ 0 ∷ print_args args

-- The arguments that are not empty, with a blank before each.
abbrev pub with_blanks : List (List ℕ) → List ℕ
with_blanks [] = []
with_blanks ([] ∷ args) = with_blanks args
with_blanks ((c ∷ arg) ∷ args) = b' ' ∷ ((c ∷ arg) ++ with_blanks args)

-- The first argument, and the others that are not empty with a blank before each.
abbrev pub join : List (List ℕ) → List ℕ
join [] = []
join (arg ∷ args) = arg ++ with_blanks args

-- The characters of an argument are added to the buffer.
cmdline_loop-chars :
    (did_exe : Bool) (arg rest buf exe : List ℕ)
    → no_char 0 arg ≡ true
    → cmdline_loop
        (arg ++ rest)
        (record { did_exe = did_exe; arg_completed = false; stringbuf = buf; exe = exe })
      ≡ cmdline_loop rest
          (record { did_exe = did_exe; arg_completed = false; stringbuf = buf ++ arg; exe = exe })
unfolding cmdline_loop cmdline_char
cmdline_loop-chars did_exe [] rest buf exe h =
    ap
      (λ b.
        cmdline_loop rest
          (record { did_exe = did_exe; arg_completed = false; stringbuf = b; exe = exe }))
      (sym (append-nil buf))
cmdline_loop-chars did_exe (c ∷ arg) rest buf exe h =
    let further =
      cmdline_loop-chars did_exe arg rest (buf ++ c ∷ []) exe (ground (arith, h))
      ∙ ap
          (λ b.
            cmdline_loop rest
              (record { did_exe = did_exe; arg_completed = false; stringbuf = b; exe = exe }))
          (append_assoc buf (c ∷ []) arg) in
    ground (arith, h, further)

abbrev reading : Bool → List ℕ → List ℕ → CmdlineState
reading arg_completed buf exe = record {
  did_exe = true;
  arg_completed = arg_completed;
  stringbuf = buf;
  exe = exe;
}

module _ (exe : List ℕ) where
  cmdline_loop-first :
      (arg rest : List ℕ)
      → no_char 0 arg ≡ true
      → cmdline_loop (arg ++ 0 ∷ rest) (reading false [] exe)
        ≡ cmdline_loop rest (reading true arg exe)
  unfolding cmdline_loop cmdline_char
  cmdline_loop-first arg rest h = cmdline_loop-chars true arg (0 ∷ rest) [] exe h

  cmdline_loop-next :
      (c : ℕ) (arg rest buf : List ℕ)
      → no_char 0 (c ∷ arg) ≡ true
      → cmdline_loop (c ∷ (arg ++ 0 ∷ rest)) (reading true buf exe)
        ≡ cmdline_loop rest (reading true (buf ++ b' ' ∷ c ∷ arg) exe)
  unfolding cmdline_loop cmdline_char
  cmdline_loop-next c arg rest buf h =
      let further =
        cmdline_loop-chars true arg (0 ∷ rest) ((buf ++ b' ' ∷ []) ++ c ∷ []) exe
          (ground (arith, h))
        ∙ ap (λ b. cmdline_loop rest (reading true b exe))
            (append_assoc (buf ++ b' ' ∷ []) (c ∷ []) arg
              ∙ append_assoc buf (b' ' ∷ []) (c ∷ arg)) in
      ground (arith, h, further)

  cmdline_loop-args :
      (args : List (List ℕ)) (buf : List ℕ)
      → AreArgs args
      → cmdline_loop (print_args args) (reading true buf exe)
        ≡ reading true (buf ++ with_blanks args) exe
  unfolding cmdline_loop cmdline_char
  cmdline_loop-args [] buf h = ap (λ b. reading true b exe) (sym (append-nil buf))
  cmdline_loop-args ([] ∷ args) buf h = cmdline_loop-args args buf h.1
  cmdline_loop-args ((c ∷ arg) ∷ args) buf h =
      cmdline_loop-next c arg (print_args args) buf h.0
      ∙ cmdline_loop-args args (buf ++ b' ' ∷ c ∷ arg) h.1
      ∙ ap (λ b. reading true b exe) (append_assoc buf (b' ' ∷ c ∷ arg) (with_blanks args))

  stringbuf-args :
      (args : List (List ℕ))
      → AreArgs args
      → (cmdline_loop (print_args args) (reading false [] exe)).stringbuf ≡ join args
  unfolding cmdline_loop
  stringbuf-args [] h = refl
  stringbuf-args (arg ∷ args) h =
      ap (λ s. s.stringbuf)
        (cmdline_loop-first arg (print_args args) h.0 ∙ cmdline_loop-args args arg h.1)

  exe-args :
      (args : List (List ℕ))
      → AreArgs args
      → (cmdline_loop (print_args args) (reading false [] exe)).exe ≡ exe
  unfolding cmdline_loop
  exe-args [] h = refl
  exe-args (arg ∷ args) h =
      ap (λ s. s.exe)
        (cmdline_loop-first arg (print_args args) h.0 ∙ cmdline_loop-args args arg h.1)

-- A command line without NULs in its arguments is read as the name of the program and the arguments.
pub read_process_cmdline-print_args :
    (exe : List ℕ) (args : List (List ℕ)) (before : List ℕ)
    → no_char 0 exe ≡ true
    → AreArgs args
    → read_process_cmdline (some (print_args (exe ∷ args))) before ≡ some (exe, join args)
unfolding read_process_cmdline cmdline_loop cmdline_char
read_process_cmdline-print_args exe args before h hs =
    ap (λ s. some (s.exe, s.stringbuf))
      (cmdline_loop-chars false exe (0 ∷ print_args args) [] before h)
    ∙ ap (λ e. some (e, (cmdline_loop (print_args args) (reading false [] exe)).stringbuf))
        (exe-args exe args hs)
    ∙ ap (λ b. some (exe, b)) (stringbuf-args exe args hs)

after_slash-none : (found name : List ℕ) → no_char b'/' name ≡ true → after_slash found name ≡ found
unfolding after_slash
after_slash-none found [] h = refl
after_slash-none found (c ∷ name) h = ground (arith, h, after_slash-none found name)

after_slash-name :
    (found dir name : List ℕ)
    → no_char b'/' name ≡ true
    → after_slash found (dir ++ b'/' ∷ name) ≡ name
unfolding after_slash
after_slash-name found [] name h = after_slash-none name name h
after_slash-name found (c ∷ dir) name h =
    ground
      (arith, after_slash-name found dir name h, after_slash-name (dir ++ b'/' ∷ name) dir name h)

c_string-no_char : (str : List ℕ) → no_char 0 str ≡ true → c_string str ≡ str
unfolding c_string
c_string-no_char [] h = refl
c_string-no_char (c ∷ str) h = ground (arith, h, c_string-no_char str)

-- The path of a program: absolute, short enough, and without NUL.
pub record IsProgram (dir name : List ℕ) : Type 0 where
  pub absolute : peek (dir ++ b'/' ∷ name) ≡ b'/'
  pub short : length (dir ++ b'/' ∷ name) < 4096
  pub chars : no_char 0 (dir ++ b'/' ∷ name) ≡ true
  pub name_last : no_char b'/' name ≡ true

not_empty : (dir name : List ℕ) → (length (dir ++ b'/' ∷ name) == 0) ≡ false
not_empty [] name = ground arith
not_empty (c ∷ dir) name = ground arith

read_process_exe-program :
    (dir name : List ℕ)
    → IsProgram dir name
    → read_process_exe (some (dir ++ b'/' ∷ name)) ≡ some (name, dir ++ b'/' ∷ name)
unfolding read_process_exe comm_of
read_process_exe-program dir name h =
    rw
      (
        c_string-no_char (dir ++ b'/' ∷ name) h.chars,
        h.absolute,
        after_slash-name (dir ++ b'/' ∷ name) dir name h.name_last,
        not_empty dir name,
      )
      (ground (arith, h.short))

-- A process whose cgroups name a container, whose exe link is an absolute path below 4096 characters and
-- without NUL, and whose command line has no NUL in an argument, is scraped as what they say: the path and
-- the last part of it, the name that the program was called by, and the first argument behind that name
-- with the later ones that are not empty, a blank before each. What the container id was before the
-- scrape stays.
pub scrape_process-program :
    (cgroup : Option (List ℕ)) (container_id dir name exe : List ℕ) (args : List (List ℕ)) (pid : ℕ)
    (info : ProcessInfo)
    → dir_container_id cgroup ≡ some container_id
    → IsProgram dir name
    → no_char 0 exe ≡ true
    → AreArgs args
    → scrape_process
        (some (record {
          cgroup = cgroup;
          exe = some (dir ++ b'/' ∷ name);
          cmdline = some (print_args (exe ∷ args));
        }))
        pid
        info
      ≡ (
        true,
        record {
          container_id = info.container_id;
          comm = name;
          exe = exe;
          exe_path = dir ++ b'/' ∷ name;
          args = join args;
          pid = pid;
        },
      )
unfolding scrape_process scrape_exe scrape_cmdline
scrape_process-program cgroup container_id dir name exe args pid info found program h hs =
    rw
      (
        found,
        read_process_exe-program dir name program,
        read_process_cmdline-print_args exe args info.exe h hs,
        scrape_process,
        scrape_exe,
        scrape_cmdline,
      )
      refl
