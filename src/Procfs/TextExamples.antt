-- ===== src/Procfs/TextExamples.antt =====
-- The texts of `/proc` at concrete inputs.
use collector.Prelude.{ℕ, ◌≡◌, refl, true, some, List, [], ◌∷◌, ◌++◌, arith}
use collector.Prelude.Text.{codes}
use collector.ContainerId.{
  rfind, starts_with, extract_container_id_from_cgroup, from_end, id_after, is_conmon,
  is_container_id, get_container_id,
}
use collector.Net.Address.{Family}
use collector.Procfs.Fields.{
  isspace, isdigit, index_of, find_from, rep_find, rep_find_from, getlines, getlines_from,
}
use collector.Procfs.ConnLine.{parse_conn_line}
use collector.Procfs.ConnLine.Laws.{
  Printed, Line, IsLine, print_line, line_data, parse_conn_line-print_line,
}
use collector.Procfs.Links.{extract_container_id, lines_container_id, dir_container_id}
use collector.Procfs.Links.Cgroups.{print_cgroups, or_empty, dir_container_id-get_container_id}
use collector.Procfs.Process.{ProcessInfo, scrape_process}
use collector.Procfs.Process.Laws.{print_args, scrape_process-program}

abbrev blank : List ℕ
blank = codes " "

-- A line of the size that Linux writes, from ::1 to an IPv6 address.
abbrev line : Line
line = record {
  blanks = codes "   ";
  slot = codes "0:";
  local = Printed.printed_ipv6 (0, 0, 0, 0) (0, 0, 0, 0) (0, 0, 0, 0) (0, 0, 0, 1) 443;
  remote = Printed.printed_ipv6 (32, 1, 13, 184) (0, 0, 0, 0) (0, 0, 0, 0) (1, 2, 3, 4) 50000;
  state = 1;
  fields =
      (blank, codes "00000000:00000000")
      ∷ (blank, codes "00:00000000")
      ∷ (blank, codes "00000000")
      ∷ (codes "     ", codes "0")
      ∷ (codes "        ", codes "0")
      ∷ [];
  inode = codes "4242";
  tail = codes " 1 ";
  local_gap = blank;
  remote_gap = blank;
  state_gap = blank;
  inode_gap = blank;
}

line-IsLine : IsLine Family.ipv6 line
unfolding isspace isdigit
line-IsLine = record {
  blanks_blank = refl;
  slot_word = record { filled = refl; chars = refl };
  local_printed = (
    (
      (omega arith, omega arith, omega arith, omega arith),
      (omega arith, omega arith, omega arith, omega arith),
      (omega arith, omega arith, omega arith, omega arith),
      (omega arith, omega arith, omega arith, omega arith),
    ),
    omega arith,
  );
  remote_printed = (
    (
      (omega arith, omega arith, omega arith, omega arith),
      (omega arith, omega arith, omega arith, omega arith),
      (omega arith, omega arith, omega arith, omega arith),
      (omega arith, omega arith, omega arith, omega arith),
    ),
    omega arith,
  );
  local_family = refl;
  remote_family = refl;
  state_byte = omega arith;
  five_fields = refl;
  fields_fields = (
    (record { filled = refl; chars = refl }, record { filled = refl; chars = refl }),
    (
      (record { filled = refl; chars = refl }, record { filled = refl; chars = refl }),
      (
        (record { filled = refl; chars = refl }, record { filled = refl; chars = refl }),
        (
          (record { filled = refl; chars = refl }, record { filled = refl; chars = refl }),
          ((record { filled = refl; chars = refl }, record { filled = refl; chars = refl }), tt),
        ),
      ),
    ),
  );
  inode_number = record { filled = refl; digits = refl; fits = omega arith };
  ended = refl;
  local_gap_gap = record { filled = refl; chars = refl };
  remote_gap_gap = record { filled = refl; chars = refl };
  state_gap_gap = record { filled = refl; chars = refl };
  inode_gap_gap = record { filled = refl; chars = refl };
}

-- The buffer of 512 bytes has room behind the line.
parse_conn_line-print_line_example :
    parse_conn_line 300 true (print_line true line) Family.ipv6 ≡ some (line_data line)
parse_conn_line-print_line_example =
    parse_conn_line-print_line 300 (omega arith) true Family.ipv6 line line-IsLine

abbrev digits : List ℕ
digits = codes "0123456789abcdef0123456789abcdef0123456789abcdef0123456789abcdef"

abbrev cgroups : List (List ℕ × List ℕ × List ℕ)
cgroups =
    (codes "2", codes "cpu,cpuacct", codes "/")
    ∷ (codes "1", codes "name=systemd", codes "/docker/" ++ digits)
    ∷ []

dir_container_id-get_container_id_example :
    or_empty (dir_container_id (some (print_cgroups cgroups))) ≡ codes "0123456789ab"
unfolding get_container_id extract_container_id_from_cgroup rfind starts_with from_end id_after
    is_conmon is_container_id
dir_container_id-get_container_id_example =
    dir_container_id-get_container_id cgroups ((refl, refl, refl), ((refl, refl, refl), tt))

abbrev no_info : ProcessInfo
no_info = record { container_id = []; comm = []; exe = []; exe_path = []; args = []; pid = 0 }

found_id :
    dir_container_id (some (codes "0::/docker/" ++ (digits ++ codes "\n")))
    ≡ some (codes "0123456789ab")
unfolding dir_container_id getlines getlines_from lines_container_id extract_container_id rep_find
    rep_find_from find_from index_of extract_container_id_from_cgroup rfind starts_with from_end
    id_after is_conmon is_container_id
found_id = refl

scrape_process-program_example :
    scrape_process
      (some (record {
        cgroup = some (codes "0::/docker/" ++ (digits ++ codes "\n"));
        exe = some (codes "/usr/bin" ++ b'/' ∷ codes "server");
        cmdline = some (print_args (codes "./server" ∷ codes "-p" ∷ [] ∷ codes "80" ∷ []));
      }))
      7
      no_info
    ≡ (
      true,
      record {
        container_id = [];
        comm = codes "server";
        exe = codes "./server";
        exe_path = codes "/usr/bin/server";
        args = codes "-p 80";
        pid = 7;
      },
    )
scrape_process-program_example =
    scrape_process-program (some (codes "0::/docker/" ++ (digits ++ codes "\n")))
      (codes "0123456789ab") (codes "/usr/bin") (codes "server") (codes "./server")
      (codes "-p" ∷ [] ∷ codes "80" ∷ []) 7 no_info found_id
      (record { absolute = refl; short = omega arith; chars = refl; name_last = refl }) refl
      (refl, (refl, (refl, tt)))
