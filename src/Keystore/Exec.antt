-- ===== src/Keystore/Exec.antt =====
-- The methods of `Store`: they change the world, and may return an error.
use raxd.Prelude.Exec.{Result as ResultOf, Exec as ExecOf}
use raxd.Keystore.{StoreError, World}
pub use raxd.Prelude.Exec.{ok, err, pure, raise, lift, ◌>>=◌, ◌>>◌, attempt}

abbrev pub Result : Type 0 → Type 0
Result A = ResultOf StoreError A

abbrev pub Exec : Type 0 → Type 0
Exec A = ExecOf StoreError World A
