-- ===== src/FileUpload/Write/History.antt =====
-- Sequences of uploads under one configuration with a quota.
use raxd.Prelude.{
  ℕ, ◌+◌, ◌^◌, length, ◌≡◌, ◌≤◌, ◌<◌, false, List, [], ◌∷◌, Bytes, arith, All, inl, inr,
}
use raxd.Prelude.Exec.{Result-cases}
use raxd.Prelude.Int.{pos}
use raxd.FileUpload.{Config, Input}
use raxd.FileUpload.Root.{Tree, Faults, total}
use raxd.FileUpload.Write.{write}
use raxd.FileUpload.Write.Quota.{write_with_quota-le}
use raxd.FileUpload.Write.Outcomes.{write_err_keeps}

pub record Request : Type 0 where
  pub faults : Faults
  pub drawn : Bytes
  pub input : Input

unfoldable pub writes : Config → Tree → List Request → Tree
writes cfg t [] = t
writes cfg t (r ∷ rs) = writes cfg (write r.faults r.drawn cfg r.input t).1 rs

abbrev pub CanRemove : Request → Type 0
CanRemove r = r.faults.remove_fails ≡ false

module _ (cfg : Config) (m k : ℕ) (limited : cfg.max_total_bytes ≡ pos m) (positive : 0 < m)
    (small : cfg.max_file_bytes ≡ pos k) (fits : m + k < 2 ^ 63) where
  pub write-le :
      (r : Request) (t : Tree)
      → CanRemove r
      → total t ≤ m
      → total (write r.faults r.drawn cfg r.input t).1 ≤ m
  unfolding write
  write-le r t can h = elim (Result-cases (write r.faults r.drawn cfg r.input t).0) [
    | inl (w, e) ↦
        let bounded : length r.input.contents ≤ k = ground (arith, small) in
        let below : total t + length r.input.contents < 2 ^ 63 = omega (arith, h, fits, bounded) in
        ground (arith, write_with_quota-le r.faults r.drawn cfg r.input t m {r = w} limited below)
    | inr (x, e) ↦
        let same = (write_err_keeps r.faults r.drawn cfg r.input t can e).same_total in
        omega (arith, same)
  ]

  -- With a positive limit on the total that with the limit on a file is below 2 ^ 63, and where
  -- temporary files can be removed, any sequence of uploads keeps the bytes in the upload root within the limit, failing uploads included.
  pub writes_within_quota :
      (rs : List Request) (t : Tree) → All CanRemove rs → total t ≤ m → total (writes cfg t rs) ≤ m
  unfolding writes
  writes_within_quota [] t a h = h
  writes_within_quota (r ∷ rs) t a h =
      writes_within_quota rs (write r.faults r.drawn cfg r.input t).1 a.1 (write-le r t a.0 h)
