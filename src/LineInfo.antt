-- ===== src/LineInfo.antt =====
-- include/lo2s/line_info.hpp, `LineInfo`: where an address is in the sources. Text is the list of its
-- characters. `filename` is `std::filesystem::path::filename`, a parameter.
use lo2s.Shared.{ℕ, not, Option, none, some, List, [], ◌∷◌, ◌==◌, if◌then◌else◌}

abbrev pub Text : Type 0
Text = List ℕ

pub record LineInfo : Type 0 where
  pub file : Text
  pub function : Text
  pub line : ℕ
  pub dso : Text

abbrev pub unknown_line : ℕ
unknown_line = 0

-- The constructor: an unknown line is the first one.
unfoldable pub line_info : Text → Text → ℕ → Text → LineInfo
line_info file function line dso = record {
  file = file;
  function = function;
  line = if not (line == unknown_line) then line else 1;
  dso = dso;
}

-- "<unknown file>", "<unknown function>" and "<unknown binary>"
abbrev pub unknown_file : Text
unknown_file = 60 ∷ 117 ∷ 110 ∷ 107 ∷ 110 ∷ 111 ∷ 119 ∷ 110 ∷ 32 ∷ 102 ∷ 105 ∷ 108 ∷ 101 ∷ 62 ∷ []

abbrev pub unknown_function : Text
unknown_function =
    60 ∷ 117 ∷ 110 ∷ 107 ∷ 110 ∷ 111 ∷ 119 ∷ 110 ∷ 32 ∷ 102 ∷ 117 ∷ 110 ∷ 99 ∷ 116 ∷ 105 ∷ 111 ∷ 110
    ∷ 62 ∷ []

abbrev pub unknown_binary : Text
unknown_binary =
    60 ∷ 117 ∷ 110 ∷ 107 ∷ 110 ∷ 111 ∷ 119 ∷ 110 ∷ 32 ∷ 98 ∷ 105 ∷ 110 ∷ 97 ∷ 114 ∷ 121 ∷ 62 ∷ []

-- A null pointer is `none`.
unfoldable pub for_function : (Text → Text) → Option Text → Option Text → ℕ → Text → LineInfo
unfolding line_info
for_function filename file function line dso =
    line_info (elim file [ none ↦ unknown_file | some t ↦ t ])
      (elim function [ none ↦ unknown_function | some t ↦ t ]) line (filename dso)

unfoldable pub for_unknown_function : LineInfo
unfolding line_info
for_unknown_function = line_info unknown_file unknown_function unknown_line unknown_binary

unfoldable pub for_unknown_function_in_dso : (Text → Text) → Text → LineInfo
unfolding line_info
for_unknown_function_in_dso filename dso =
    line_info unknown_file unknown_function unknown_line (filename dso)

unfoldable pub for_binary : Text → LineInfo
unfolding line_info
for_binary binary = line_info binary binary unknown_line binary
