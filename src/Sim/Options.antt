-- ===== src/Sim/Options.antt =====
-- The command line of sim/sim_vpi_main.cpp and what it sets in the server and on the pins. The words
-- behind the program's name are lists of character codes; an exception of `std::stoull` or
-- `std::stoi`, which nothing catches, ends the program.
use jtag.Prelude.{
  ℕ, ◌≡◌, refl, sym, ◌∙◌, Bool, true, false, ◌&&◌, ◌||◌, List, [], ◌∷◌, ◌++◌, Option, none, some,
  if◌then◌else◌, Text, codes, text_eq, after_prefix, ℤ, pos, stoull, stoi,
}
use jtag.Server.State.{ProtocolMode, unknown, openocd_vpi, legacy_8byte, Server, World, on_server}
use jtag.Server.Signals.{set_mode}
use jtag.Sim.{Sim, start, level}

pub record Options : Type 0 where
  pub trace_enabled : Bool
  pub verbose : Bool
  pub cjtag_mode : Bool
  pub msb_first : Bool
  pub proto_mode : Text
  pub timeout_seconds : ℕ
  pub debug_level : ℤ

unfoldable pub defaults : Options
defaults = record {
  trace_enabled = false;
  verbose = true;
  cjtag_mode = false;
  msb_first = false;
  proto_mode = codes "auto";
  timeout_seconds = 0;
  debug_level = pos 0;
}

abbrev pub with_proto : Options → Text → Option Options
with_proto o v = some (record o { proto_mode = v })

unfoldable pub with_timeout : Options → Text → Option Options
with_timeout o v = set_seconds (stoull v)
  where
    set_seconds : Option ℕ → Option Options
    set_seconds none = none
    set_seconds (some n) = some (record o { timeout_seconds = n })

unfoldable pub with_debug : Options → Text → Option Options
with_debug o v = set_level (stoi v)
  where
    set_level : Option ℤ → Option Options
    set_level none = none
    set_level (some n) = some (record o { debug_level = n })

-- What a word asks for: to go on with new options, to take the next word as a value, to print the
-- help; or it makes a conversion fail.
pub data Effect : Type 0 where
  next : Options → Effect
  takes_value : (Text → Option Options) → Effect
  shows_help : Effect
  throws : Effect

abbrev pub settle : Option Options → Effect
settle none = throws
settle (some o) = next o

-- The chain of tests behind `--msb-first`, in which a word may be followed by its value or hold it.
-- `more` says that another word follows.
abbrev pub valued : Text → Bool → Options → Effect
valued arg more o =
    if text_eq arg (codes "--proto") && more
    then takes_value (with_proto o)
    else elim (after_prefix (codes "--proto=") arg) [
      | some v ↦ settle (with_proto o v)
      | none ↦
          if text_eq arg (codes "--timeout") && more
          then takes_value (with_timeout o)
          else elim (after_prefix (codes "--timeout=") arg) [
            | some v ↦ settle (with_timeout o v)
            | none ↦
                if text_eq arg (codes "--debug") && more
                then takes_value (with_debug o)
                else elim (after_prefix (codes "--debug=") arg) [
                  | some v ↦ settle (with_debug o v)
                  | none ↦
                      if text_eq arg (codes "-d") && more
                      then takes_value (with_debug o)
                      else if text_eq arg (codes "--help") || text_eq arg (codes "-h")
                      then shows_help
                      else next o
                ]
          ]
    ]

unfoldable pub word : Text → Bool → Options → Effect
unfolding with_timeout with_debug
word arg more o =
    if text_eq arg (codes "--trace")
    then next (record o { trace_enabled = true })
    else if text_eq arg (codes "--cjtag")
    then next (record o { cjtag_mode = true })
    else if text_eq arg (codes "--quiet") || text_eq arg (codes "-q")
    then next (record o { verbose = false })
    else if text_eq arg (codes "--verbose") || text_eq arg (codes "-v")
    then next (record o { verbose = true })
    else if text_eq arg (codes "--msb-first")
    then next (record o { msb_first = true })
    else valued arg more o

pub data Parsed : Type 0 where
  run : Options → Parsed
  help : Parsed
  aborted : Parsed

-- The loop over `argv`.
unfoldable pub parse_args : List Text → Options → Parsed
unfolding word
parse_args [] o = run o
parse_args (arg ∷ []) o = elim (word arg false o) [
  | next o' ↦ run o'
  | takes_value f ↦ run o
  | shows_help ↦ help
  | throws ↦ aborted
]
parse_args (arg ∷ v ∷ rest) o = elim (word arg true o) [
  | next o' ↦ parse_args (v ∷ rest) o'
  | takes_value f ↦ elim (f v) [ some o' ↦ parse_args rest o' | none ↦ aborted ]
  | shows_help ↦ help
  | throws ↦ aborted
]

unfoldable pub protocol_of : Text → ProtocolMode
protocol_of t =
    if text_eq t (codes "openocd")
    then openocd_vpi
    else if text_eq t (codes "legacy")
    then legacy_8byte
    else unknown

-- What the options set in a new server.
unfoldable pub configure : Options → Server → Server
unfolding protocol_of set_mode
configure o s = record s {
  msb_first = o.msb_first;
  protocol_mode = protocol_of o.proto_mode;
  signals = set_mode (level o.cjtag_mode) s.signals;
}

-- The loop's state when it begins.
unfoldable pub begin : Options → World → Sim
unfolding configure
begin o w = record { driver = start (level o.cjtag_mode); world = on_server (configure o) w }

-- A word that takes no value leaves the rest to the loop.
parse_args-next :
    (arg : Text) (rest : List Text) (o o' : Options)
    → ((more : Bool) → word arg more o ≡ next o')
    → parse_args (arg ∷ rest) o ≡ parse_args rest o'
unfolding parse_args
parse_args-next arg [] o o' h = rw (h false, parse_args) refl
parse_args-next arg (v ∷ rest) o o' h = rw (h true, parse_args) refl

parse_args-throws :
    (arg : Text) (rest : List Text) (o : Options)
    → ((more : Bool) → word arg more o ≡ throws)
    → parse_args (arg ∷ rest) o ≡ aborted
unfolding parse_args
parse_args-throws arg [] o h = rw (h false, parse_args) refl
parse_args-throws arg (v ∷ rest) o h = rw (h true, parse_args) refl

-- What both spellings of an option lead to.
abbrev applied : List Text → Option Options → Parsed
applied rest none = aborted
applied rest (some o) = parse_args rest o

parse_args-joined :
    (arg : Text) (rest : List Text) (o : Options) (r : Option Options)
    → ((more : Bool) → word arg more o ≡ settle r)
    → parse_args (arg ∷ rest) o ≡ applied rest r
parse_args-joined arg rest o (some o') h = parse_args-next arg rest o o' h
parse_args-joined arg rest o none h = parse_args-throws arg rest o h

next_word :
    (rest : List Text) (r : Option Options)
    → (elim r [ some o' ↦ parse_args rest o' | none ↦ aborted ]) ≡ applied rest r
next_word rest (some o) = refl
next_word rest none = refl

-- `--proto`, `--timeout` and `--debug` mean the same with the value in the next word as behind `=`,
-- failing conversions included, and `-d` the same as `--debug`, whatever the value and the words
-- that follow.
pub spellings_agree :
    (v : Text) (rest : List Text) (o : Options)
    → (parse_args (codes "--proto" ∷ v ∷ rest) o ≡ parse_args ((codes "--proto=" ++ v) ∷ rest) o)
      × (parse_args (codes "--timeout" ∷ v ∷ rest) o
          ≡ parse_args ((codes "--timeout=" ++ v) ∷ rest) o)
      × (parse_args (codes "--debug" ∷ v ∷ rest) o ≡ parse_args ((codes "--debug=" ++ v) ∷ rest) o)
      × (parse_args (codes "-d" ∷ v ∷ rest) o ≡ parse_args (codes "--debug" ∷ v ∷ rest) o)
unfolding parse_args with_timeout with_debug
spellings_agree v rest o = (
  sym (parse_args-joined (codes "--proto=" ++ v) rest o (with_proto o v) λ more. refl),
  next_word rest (with_timeout o v)
      ∙ sym (parse_args-joined (codes "--timeout=" ++ v) rest o (with_timeout o v) λ more. refl),
  next_word rest (with_debug o v)
      ∙ sym (parse_args-joined (codes "--debug=" ++ v) rest o (with_debug o v) λ more. refl),
  refl,
)
