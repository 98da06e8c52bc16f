-- ===== src/Js/Bytecode.antt =====
-- core/include/malibu/js/bytecode/bytecode.h and js/bytecode/bytecode.cpp: the 64-bit instruction word
-- and the table of call sites.
--
-- An instruction's fields are bit patterns, the signed one included; the fields that `|` joins share no
-- bit, so they are added. An opcode is its number. The mutex of the table makes each operation one step.
pub mod Encoding
use malibu.Common.{
  ==_iff, All, All-append, All-imp, Bool, Bool-cases, Distinct, Distinct-snoc, List, List-cases,
  Option, Option-cases, [], ap, arith, drop, drop-length-append, exists, exists_get_elem?,
  exists_none, false, get_elem?, get_elem?-append_left, get_elem?-append_length, get_elem?-lt,
  get_elem?-set_ne, get_elem?-set_self, get_elem?_lem, get_or, if◌then◌else◌, inl, inr, is_empty,
  keep, leb, leb→le, length, length-append, length-drop, length-keep-le, length-set, listed,
  listed-append, ltb, ltb→lt, lt→ltb, map, map-append_lem, none, not, not-listed, refl, set,
  set-append_length, set-get_elem?, set-set, some, subst, suc, sym, take, take-length-append, tests,
  true, zero, ℕ, ◌%◌, ◌&&◌, ◌*◌, ◌++◌, ◌+◌, ◌-◌, ◌/◌, ◌<◌, ◌==◌, ◌^◌, ◌||◌, ◌↔◌, ◌∙◌, ◌∷◌, ◌≡◌, ◌≢◌,
  ◌≤◌, ◌⊎◌,
}

pub record BytecodeHeader : Type 0 where
  pub magic : ℕ
  pub version : ℕ
  pub constant_pool_size : ℕ
  pub register_count : ℕ
  pub instruction_count : ℕ

pub record Instruction : Type 0 where
  pub op : ℕ
  pub dst : ℕ
  pub src_a : ℕ
  pub src_b : ℕ
  pub imm16 : ℕ

unfoldable pub encode : Instruction → ℕ
encode i =
    i.op % 2 ^ 8 * 2 ^ 56
    + i.dst % 2 ^ 8 * 2 ^ 48
    + i.src_a % 2 ^ 16 * 2 ^ 32
    + i.src_b % 2 ^ 16 * 2 ^ 16
    + i.imm16 % 2 ^ 16

unfoldable pub decode : ℕ → Instruction
decode raw = record {
  op = raw / 2 ^ 56 % 2 ^ 8;
  dst = raw / 2 ^ 48 % 2 ^ 8;
  src_a = raw / 2 ^ 32 % 2 ^ 16;
  src_b = raw / 2 ^ 16 % 2 ^ 16;
  imm16 = raw % 2 ^ 16;
}

pub record CallSiteEntry : Type 0 where
  pub call_site_id : ℕ
  pub webcall_id : ℕ
  pub deoptimized : Bool
  pub deopt_epoch : ℕ

-- `sites_`: an unordered map is a function from its keys.
abbrev pub CallSiteTable : Type 0
CallSiteTable = ℕ → Option CallSiteEntry

abbrev pub empty_sites : CallSiteTable
empty_sites id = none

unfoldable pub register_function : List CallSiteEntry → CallSiteTable → CallSiteTable
register_function [] t = t
register_function (s ∷ sites) t =
    register_function sites (λ (id : ℕ). if id == s.call_site_id then some s else t id)

-- A change of the entry at one site, if there is one.
abbrev pub change_site :
    (CallSiteEntry → CallSiteEntry) → Option CallSiteEntry → Option CallSiteEntry
change_site f none = none
change_site f (some e) = some (f e)

abbrev pub at_site : (CallSiteEntry → CallSiteEntry) → ℕ → CallSiteTable → CallSiteTable
at_site f site t id = if id == site then change_site f (t id) else t id

unfoldable pub deoptimize : ℕ → CallSiteTable → CallSiteTable
deoptimize = at_site (λ (e : CallSiteEntry). record e {
  deoptimized = true;
  deopt_epoch = (e.deopt_epoch + 1) % 2 ^ 64;
})

unfoldable pub reoptimize : ℕ → CallSiteTable → CallSiteTable
reoptimize = at_site (λ (e : CallSiteEntry). record e { deoptimized = false })

abbrev pub deoptimized_in : Option CallSiteEntry → Bool
deoptimized_in none = false
deoptimized_in (some e) = e.deoptimized

abbrev pub is_deoptimized : ℕ → CallSiteTable → Bool
is_deoptimized site t = deoptimized_in (t site)

abbrev pub webcall_in : Option CallSiteEntry → ℕ
webcall_in none = 2 ^ 32 - 1
webcall_in (some e) = e.webcall_id

abbrev pub webcall_id_of : ℕ → CallSiteTable → ℕ
webcall_id_of site t = webcall_in (t site)

abbrev pub epoch_in : Option CallSiteEntry → ℕ
epoch_in none = 0
epoch_in (some e) = e.deopt_epoch

abbrev pub epoch_of : ℕ → CallSiteTable → ℕ
epoch_of site t = epoch_in (t site)

pub record BytecodeFunction : Type 0 where
  pub header : BytecodeHeader
  pub code : List ℕ
  pub call_sites : List CallSiteEntry

abbrev pub version_ok : BytecodeFunction → Bool
version_ok f = (f.header.magic == 0x4D4C4253) && (f.header.version == 4)
