-- ===== src/EventBuilder/Inputs.antt =====
-- src/event_builder.cpp: what was thrown, and what the C++ runtime says of it.
use forge_ops_tracker_cpp.Prelude.{
  ℕ, Bool, ◌&&◌, List, [], ◌∷◌, Option, none, some, Bytes, codes, bytes_eq, length, ltb, ◌==◌,
  if◌then◌else◌,
}
use forge_ops_tracker_cpp.SqlStatement.Causes.{
  Exception, plain, around_other, around, or_else, find_in,
}

-- `demangled` is __cxa_demangle's answer; `symbols` are the lines of backtrace_symbols for the frames
-- on the stack, none if it fails; `match_frame` gives the image and the symbol of such a line.
pub record Runtime : Type 0 where
  pub demangled : Bytes → Option Bytes
  pub executable_path : Option Bytes
  pub symbols : Option (List Bytes)
  pub match_frame : Bytes → Option (Bytes × Bytes)
  pub occurred_at : Bytes
  pub replace_patterns : Bytes → Bytes

-- What was thrown: no std::exception, or one with the mangled name of its type.
pub data Thrown : Type 0 where
  other : Thrown
  standard : Bytes → Exception → Thrown

abbrev pub what : Exception → Bytes
what (plain statement text) = text
what (around_other statement text) = text
what (around statement text inner) = text

abbrev pub k_max_frames : ℕ
k_max_frames = 128

abbrev pub demangle : Runtime → Bytes → Bytes
demangle rt mangled = elim (rt.demangled mangled) [ none ↦ mangled | some name ↦ name ]

abbrev pub exception_class : Runtime → Thrown → Bytes
exception_class rt other = codes "unknown exception"
exception_class rt (standard mangled e) = demangle rt mangled

abbrev pub message_of : Thrown → Bytes
message_of other = []
message_of (standard mangled e) = what e

abbrev pub raw_statement : Thrown → Bytes → Bytes
raw_statement other sql = sql
raw_statement (standard mangled e) sql = or_else sql (find_in e)

-- What follows the last '/', the whole text without one.
after_slash : Bytes → Bytes → Bytes
after_slash name [] = name
after_slash name (c ∷ s) = if c == b'/' then after_slash s s else after_slash name s

unfoldable pub current_executable_name : Runtime → Bytes
unfolding after_slash
current_executable_name rt = elim rt.executable_path [
  | none ↦ []
  | some path ↦ after_slash path path
]

unfoldable pub is_in_app : Runtime → Bytes → Bool
unfolding current_executable_name
is_in_app rt image =
    let executable = current_executable_name rt in
    ltb 0 (length executable) && bytes_eq image executable
