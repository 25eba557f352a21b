-- ===== src/Service/Exec.antt =====
-- internal/service/exec.go: what RunManager returns, with mapExitCode, and neutralizeStderr of
-- templates.go.
use raxd.Prelude.{◌≡◌, refl, ◌&&◌, [], ◌∷◌, Bytes, bytes_eq, codes, if◌then◌else◌}
use raxd.Prelude.Int.{ℤ, pos, eqb_ℤ}
use raxd.Prelude.Exec.{Result, ok, err}
use raxd.Server.Audit.{text, bytes, number}
use raxd.Service.{ServiceError, wrap_err, manager_unavailable, no_sentinel}

-- How the command ended: well, with its output; the binary was not found; the context was done, with
-- the text of its error; another error, with its text; or with a code that is not 0, and what was
-- written to standard error.
pub data RunEnd : Type 0 where
  ran : Bytes → RunEnd
  no_binary : RunEnd
  done_before : Bytes → RunEnd
  cannot_run : Bytes → RunEnd
  exited_with : ℤ → Bytes → RunEnd

-- The text that it is given is ignored.
abbrev pub neutralize_stderr : Bytes → Bytes
neutralize_stderr raw = codes "manager command failed"

unfoldable pub map_exit_code : Bytes → ℤ → Bytes → ServiceError
map_exit_code name code detail =
    if eqb_ℤ code (pos 1) && bytes_eq detail (codes "manager command failed")
    then wrap_err manager_unavailable
        (bytes name ∷ text " exited with code " ∷ number code ∷ text ": " ∷ bytes detail ∷ [])
    else wrap_err manager_unavailable (bytes name ∷ text " exited with code " ∷ number code ∷ [])

-- `quote` is the verb %q of fmt.
unfoldable pub manager_result : (Bytes → Bytes) → Bytes → RunEnd → Result ServiceError Bytes
unfolding map_exit_code
manager_result quote name (ran output) = ok output
manager_result quote name no_binary =
    err
      (wrap_err manager_unavailable (text "binary " ∷ bytes (quote name) ∷ text " not found" ∷ []))
manager_result quote name (done_before e) =
    err (wrap_err no_sentinel (text "manager command cancelled: " ∷ bytes e ∷ []))
manager_result quote name (cannot_run e) = err (
    wrap_err manager_unavailable
      (text "cannot execute " ∷ bytes (quote name) ∷ text ": " ∷ bytes (neutralize_stderr e) ∷ []))
manager_result quote name (exited_with code stderr) =
    err (map_exit_code name code (neutralize_stderr stderr))

-- Two ends with the same code, of which what was written to standard error, or the text of the error
-- of exec, may differ.
pub data SameEnd : RunEnd → RunEnd → Type 0 where
  same_code : {code : ℤ} (s t : Bytes) → SameEnd (exited_with code s) (exited_with code t)
  same_error : (s t : Bytes) → SameEnd (cannot_run s) (cannot_run t)

-- What RunManager returns where the command fails does not depend on what the command wrote to
-- standard error, nor on the text of an error of exec.
pub manager_result-SameEnd :
    (quote : Bytes → Bytes) (name : Bytes) {a b : RunEnd}
    → SameEnd a b
    → manager_result quote name a ≡ manager_result quote name b
unfolding manager_result
manager_result-SameEnd quote name (same_code s t) = refl
manager_result-SameEnd quote name (same_error s t) = refl
