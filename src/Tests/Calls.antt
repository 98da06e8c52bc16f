-- ===== src/Tests/Calls.antt =====
-- Runs of the instruction words and of the calls from scripts into the DOM.
use malibu.Common.{[], arith, false, if◌then◌else◌, none, refl, some, true, ◌==◌, ◌∷◌, ◌≡◌}
use malibu.Js.Bytecode.{Instruction, CallSiteTable, encode, decode}
use malibu.Js.Bytecode.Encoding.{IsInstruction, decode-encode}
use malibu.WebCall.{ValueBox, WebCallArgs, RealmState, Kind, run_guards}
use malibu.WebCall.Dispatch.{falls_back}

abbrev jump : Instruction
jump = record { op = 31; dst = 3; src_a = 500; src_b = 7; imm16 = 65535 }

jump-IsInstruction : IsInstruction jump
jump-IsInstruction = record {
  op = omega arith;
  dst = omega arith;
  src_a = omega arith;
  src_b = omega arith;
  imm16 = omega arith;
}

decode-encode_example : (decode (encode jump) ≡ jump) × (encode (decode 77) ≡ 77)
decode-encode_example = decode-encode jump 77 jump-IsInstruction (omega arith)

-- Call site 4 makes elements, and its realm is no longer valid.
abbrev sites : CallSiteTable
sites id =
    if id == 4
    then some (record { call_site_id = 4; webcall_id = 2; deoptimized = false; deopt_epoch = 0 })
    else none

abbrev stale : RealmState
stale = record {
  valid = false;
  document_prototype_stable = true;
  has_proxy_intercept = false;
  query_selector_is_original = true;
  dom_mutators_are_original = true;
}

abbrev box : ValueBox
box = record {
  kind = Kind.kind_undefined;
  node = record { index = 0; generation = 0 };
  b = false;
  i = 0;
  str = [];
}

abbrev args : WebCallArgs
args = record { str_a = 100 ∷ []; str_b = []; node_a = record { index = 0; generation = 0 } }

falls : falls_back (some stale) sites 4 ≡ true
unfolding falls_back run_guards
falls = refl
