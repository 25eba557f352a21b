-- ===== src/CmdExec/CappedWriter.antt =====
-- internal/cmdexec/cappedwriter.go, against the concatenation of all that was written.
use raxd.Prelude.{
  ℕ, zero, suc, ◌-◌, ◌≡◌, refl, Bool, true, false, List, [], ◌∷◌, ◌++◌, Bytes, arith, ltb, ◌==◌,
  if◌then◌else◌, length, take, length-append, length-take,
}
use mathlib.Core.List.{append-nil, append_assoc}
use raxd.Prelude.Lists.{take-append, take_all}

pub record CappedWriter : Type 0 where
  pub buf : Bytes
  pub cap : ℕ
  pub truncated : Bool

unfoldable pub new_capped_writer : ℕ → CappedWriter
new_capped_writer cap = record { buf = []; cap = cap; truncated = false }

abbrev mark : CappedWriter → ℕ → CappedWriter
mark cw n = if ltb 0 n then record cw { truncated = true } else cw

-- Write; `cap - len(buf)` is an integer in the source, and at most 0 exactly where it is 0 here.
unfoldable pub write : CappedWriter → Bytes → CappedWriter × ℕ
write cw p =
    let n = length p in
    let remaining = cw.cap - length cw.buf in
    if cw.cap == 0
    then (mark cw n, n)
    else if remaining == 0
    then (mark cw n, n)
    else if ltb remaining n
    then (record cw { buf = cw.buf ++ take remaining p; truncated = true }, n)
    else (record cw { buf = cw.buf ++ p }, n)

unfoldable pub write_all : CappedWriter → List Bytes → CappedWriter
write_all cw [] = cw
write_all cw (p ∷ ps) = write_all (write cw p).0 ps

abbrev pub concat : List Bytes → Bytes
concat [] = []
concat (p ∷ ps) = p ++ concat ps

-- What the writer is after `seen` was written.
abbrev pub IsView : ℕ → Bytes → CappedWriter → Type 0
IsView limit seen cw =
    (cw.cap ≡ limit) × (cw.buf ≡ take limit seen) × (cw.truncated ≡ ltb limit (length seen))

start : (limit : ℕ) → [] ≡ take {A = ℕ} limit []
start zero = refl
start (suc n) = refl

flag : (limit : ℕ) → false ≡ ltb limit 0
flag limit = ground arith

-- The room left is the same counted on the buffer and on all that was written.
room : (limit : ℕ) (seen : Bytes) → limit - length (take limit seen) ≡ limit - length seen
room limit seen = omega (arith, length-take limit seen)

write-IsView :
    (limit : ℕ) (seen p : Bytes) (cw : CappedWriter)
    → IsView limit seen cw
    → IsView limit (seen ++ p) (write cw p).0
unfolding write
write-IsView limit seen p cw v = ground (
  arith,
  take-append limit seen p,
  length-append seen p,
  room limit seen,
  append-nil (take limit seen),
  take_all (limit - length seen) p,
)

write_all-IsView :
    (limit : ℕ) (seen : Bytes) (ps : List Bytes) (cw : CappedWriter)
    → IsView limit seen cw
    → IsView limit (seen ++ concat ps) (write_all cw ps)
unfolding write_all
write_all-IsView limit seen [] cw v = rw append-nil v
write_all-IsView limit seen (p ∷ ps) cw v =
    rw (← append_assoc seen p (concat ps))
      (write_all-IsView limit (seen ++ p) ps (write cw p).0 (write-IsView limit seen p cw v))

-- After any writes the buffer holds the first bytes of all that was written, up to the limit, and
-- the flag says whether more was written; each write reports its whole length.
pub write_all_lem :
    (limit : ℕ) (ps : List Bytes)
    → ((write_all (new_capped_writer limit) ps).buf ≡ take limit (concat ps))
      × ((write_all (new_capped_writer limit) ps).truncated ≡ ltb limit (length (concat ps)))
      × ((cw : CappedWriter) (p : Bytes) → (write cw p).1 ≡ length p)
unfolding new_capped_writer write
write_all_lem limit ps =
    let (_, b, t) =
      write_all-IsView limit [] ps (new_capped_writer limit) (refl, start limit, flag limit) in
    (b, t, λ cw p. ground arith)
