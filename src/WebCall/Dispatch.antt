-- ===== src/WebCall/Dispatch.antt =====
-- What a dispatch does, whichever path it takes, and what it records at the call site.
use malibu.Common.{Bool, Option, if◌then◌else◌, leb, not, some, ℕ, ◌&&◌}
use malibu.Dom.Document.{Document}
use malibu.Js.Bytecode.{CallSiteTable, is_deoptimized, webcall_id_of}
use malibu.WebCall.{
  ValueBox, WebCallArgs, RealmState, Called, ErrorCode, slow_handler, run_guards, run_handler,
}

-- The generic call by id, with no guards and no table.
unfoldable pub generic : ℕ → ℕ → Option Document → ℕ → WebCallArgs → Option ValueBox → Option Called
unfolding slow_handler run_handler
generic fuel id dom target args out =
    if leb 18 id
    then some (record { dom = dom; out = out; code = ErrorCode.err_type })
    else run_handler fuel (slow_handler id) dom target args out

-- Whether a dispatch deoptimizes: a known site, on the fast path, whose guards fail.
unfoldable pub falls_back : Option RealmState → CallSiteTable → ℕ → Bool
unfolding run_guards
falls_back realm cst site =
    not (leb 18 (webcall_id_of site cst))
    && (not (is_deoptimized site cst) && not (run_guards (webcall_id_of site cst) realm))
