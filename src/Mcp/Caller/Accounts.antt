-- ===== src/Mcp/Caller/Accounts.antt =====
-- What an action writes to the audit, and how that composes.
use raxd.Prelude.{
  ℕ, ◌+◌, ◌≡◌, ap, sym, ◌∙◌, refl, Bool, true, false, List, [], ◌∷◌, ◌++◌, length, length-append,
  All, append-nil, append_assoc, arith,
}
use raxd.Prelude.Exec.{Exec, Result, ok, err, when, continue, ◌>>=◌}
use raxd.Server.Audit.{AuditRecord, Message, Verdict}
use raxd.Mcp.Caller.{Caller, is_final, cons_final, finals}

abbrev pub IsOf : Caller → AuditRecord → Type 0
IsOf caller r = (r.fingerprint ≡ caller.fingerprint) × (r.remote_addr ≡ caller.remote_addr)

-- From `before` to `after`, records of the caller were added, of which `n` are no warnings.
pub record Accounted (caller : Caller) (before after : List AuditRecord) (n : ℕ) : Type 0 where
  pub new : List AuditRecord
  pub written : after ≡ before ++ new
  pub signed : All (IsOf caller) new
  pub final : length (finals new) ≡ n

finals_cons :
    (b : Bool) (v : Verdict) (vs ws : List Verdict)
    → cons_final b v vs ++ ws ≡ cons_final b v (vs ++ ws)
finals_cons true v vs ws = refl
finals_cons false v vs ws = refl

finals-append : (rs ss : List AuditRecord) → finals (rs ++ ss) ≡ finals rs ++ finals ss
finals-append [] ss = refl
finals-append (r ∷ rs) ss =
    ap (cons_final (is_final r.result) r.result) (finals-append rs ss)
    ∙ sym (finals_cons (is_final r.result) r.result (finals rs) (finals ss))

All-append :
    (P : AuditRecord → Type 0) (rs ss : List AuditRecord) → All P rs → All P ss → All P (rs ++ ss)
All-append P [] ss a b = b
All-append P (r ∷ rs) ss a b = (a.0, All-append P rs ss a.1 b)

-- An error is told by one record that is no warning, and what goes on writes only warnings.
abbrev pub told : {A : Type 0} → Result Message A → ℕ
told (ok a) = 0
told (err e) = 1

module _ (caller : Caller) where
  pub Accounted-refl : (rs : List AuditRecord) → Accounted caller rs rs 0
  Accounted-refl rs = record { new = []; written = sym (append-nil rs); signed = tt; final = refl }

  pub Accounted-trans :
      {a b c : List AuditRecord} {m n k : ℕ}
      → Accounted caller a b m
      → Accounted caller b c n
      → m + n ≡ k
      → Accounted caller a c k
  Accounted-trans {a} x y e = record {
    new = x.new ++ y.new;
    written = y.written ∙ (ap (λ l. l ++ y.new) x.written ∙ append_assoc a x.new y.new);
    signed = All-append (IsOf caller) x.new y.new x.signed y.signed;
    final =
        ap length (finals-append x.new y.new)
        ∙ omega (arith, length-append (finals x.new) (finals y.new), x.final, y.final, e);
  }

  module _ {S : Type 0} (log : S → List AuditRecord) where
    abbrev pub Steps : {A : Type 0} → Exec Message S A → Type 0
    Steps m = (s : S) → Accounted caller (log s) (log (m s).1) (told (m s).0)

    abbrev pub Closes : {A : Type 0} → Exec Message S A → Type 0
    Closes m = (s : S) → Accounted caller (log s) (log (m s).1) 1

    continue-Steps :
        {A B : Type 0} (r : Result Message A) (f : A → Exec Message S B) (s t : S)
        → Accounted caller (log s) (log t) (told r)
        → ((a : A) → Steps (f a))
        → Accounted caller (log s) (log (continue r f t).1) (told (continue r f t).0)
    continue-Steps (ok a) f s t x k = Accounted-trans x (k a t) (omega arith)
    continue-Steps (err e) f s t x k = x

    pub >>=-Steps :
        {A B : Type 0} (m : Exec Message S A) (f : A → Exec Message S B)
        → Steps m
        → ((a : A) → Steps (f a))
        → Steps (m >>= f)
    >>=-Steps m f x k s = continue-Steps (m s).0 f s (m s).1 (x s) k

    continue-Closes :
        {A B : Type 0} (r : Result Message A) (f : A → Exec Message S B) (s t : S)
        → Accounted caller (log s) (log t) (told r)
        → ((a : A) → Closes (f a))
        → Accounted caller (log s) (log (continue r f t).1) 1
    continue-Closes (ok a) f s t x k = Accounted-trans x (k a t) (omega arith)
    continue-Closes (err e) f s t x k = x

    pub >>=-Closes :
        {A B : Type 0} (m : Exec Message S A) (f : A → Exec Message S B)
        → Steps m
        → ((a : A) → Closes (f a))
        → Closes (m >>= f)
    >>=-Closes m f x k s = continue-Closes (m s).0 f s (m s).1 (x s) k

    pub when-Steps : (b : Bool) (m : Exec Message S (Unit {0})) → Steps m → Steps (when b m)
    when-Steps true m x s = x s
    when-Steps false m x s = Accounted-refl (log s)
