-- ===== src/Service/Templates/Injection.antt =====
-- A rendered unit has the lines of the template: no value adds one.
use raxd.Prelude.{
  ℕ, ◌≡◌, refl, Bool, true, false, not, ◌&&◌, List, [], ◌∷◌, ◌++◌, Bytes, arith, ◌==◌, codes,
}
use raxd.Prelude.Exec.{ok}
use raxd.Service.Passwd.{split}
use raxd.Service.Templates.{
  TemplateData, all_bytes, is_name_byte, is_posix_name, has_control_char, validate_template_data,
  unlines,
}
use raxd.Service.Templates.Unit.{unit_head, unit_capability, unit_tail, unit_lines, render_unit}

abbrev not_break : ℕ → Bool
not_break c = not (c == 10)

abbrev all_free : List Bytes → Bool
all_free [] = true
all_free (l ∷ ls) = all_bytes not_break l && all_free ls

all_free-append :
    (a b : List Bytes) → all_free a ≡ true → all_free b ≡ true → all_free (a ++ b) ≡ true
all_free-append [] b ha hb = hb
all_free-append (l ∷ a) b ha hb = ground (arith, all_free-append a b)

all_bytes-append :
    (a b : Bytes) → all_bytes not_break (a ++ b) ≡ (all_bytes not_break a && all_bytes not_break b)
unfolding all_bytes
all_bytes-append [] b = refl
all_bytes-append (c ∷ a) b = ground (arith, all_bytes-append a b)

split_line :
    (l rest : Bytes) → all_bytes not_break l ≡ true → split 10 (l ++ 10 ∷ rest) ≡ l ∷ split 10 rest
unfolding split all_bytes
split_line [] rest h = refl
split_line (c ∷ l) rest h = ground (arith, split_line l rest)

split-unlines : (ls : List Bytes) → all_free ls ≡ true → split 10 (unlines ls) ≡ ls ++ [] ∷ []
unfolding unlines split
split-unlines [] h = refl
split-unlines (l ∷ ls) h = ground (arith, split_line l (unlines ls), split-unlines ls)

printable : (s : Bytes) → has_control_char s ≡ false → all_bytes not_break s ≡ true
unfolding has_control_char all_bytes
printable [] h = refl
printable (c ∷ s) h = ground (arith, printable s)

name_bytes : (s : Bytes) → all_bytes is_name_byte s ≡ true → all_bytes not_break s ≡ true
unfolding all_bytes
name_bytes [] h = refl
name_bytes (c ∷ s) h = ground (arith, name_bytes s)

posix_name : (s : Bytes) → is_posix_name s ≡ true → all_bytes not_break s ≡ true
unfolding is_posix_name all_bytes
posix_name [] h = refl
posix_name (c ∷ s) h = ground (arith, name_bytes s)

head_free :
    (d : TemplateData)
    → all_bytes not_break d.exec_path ≡ true
    → all_bytes not_break d.user ≡ true
    → all_bytes not_break d.group ≡ true
    → all_free (unit_head d) ≡ true
unfolding unit_head all_bytes
head_free d p u g = ground (arith, all_bytes-append d.exec_path (codes " serve"))

capability_free : (b : Bool) → all_free (unit_capability b) ≡ true
unfolding unit_capability all_bytes
capability_free true = refl
capability_free false = refl

tail_free : all_free unit_tail ≡ true
unfolding unit_tail all_bytes
tail_free = refl

lines_free :
    (d : TemplateData)
    → is_posix_name d.user ≡ true
    → is_posix_name d.group ≡ true
    → has_control_char d.exec_path ≡ false
    → all_free (unit_lines d) ≡ true
unfolding unit_lines
lines_free d u g p =
    all_free-append (unit_head d) (unit_capability d.need_net_bind_cap ++ unit_tail)
      (head_free d (printable d.exec_path p) (posix_name d.user u) (posix_name d.group g))
      (all_free-append (unit_capability d.need_net_bind_cap) unit_tail
        (capability_free d.need_net_bind_cap) tail_free)

validated :
    (d : TemplateData)
    → validate_template_data d ≡ ok tt
    → (is_posix_name d.user ≡ true)
      × (is_posix_name d.group ≡ true)
      × (has_control_char d.exec_path ≡ false)
unfolding validate_template_data
validated d h = ground arith

render_ok :
    (d : TemplateData) {s : Bytes}
    → render_unit d ≡ ok s
    → (validate_template_data d ≡ ok tt) × (s ≡ unlines (unit_lines d))
unfolding render_unit
render_ok d h = ground arith

-- Split at its line feeds, a unit that RenderUnit returns is the template's lines with the values
-- put in, and an empty rest: a value adds no line, so no directive.
pub render_unit-lines :
    (d : TemplateData) {s : Bytes} → render_unit d ≡ ok s → split 10 s ≡ unit_lines d ++ [] ∷ []
render_unit-lines d {s} h =
    let (v, e) = render_ok d h in
    let (u, g, p) = validated d v in rw e (split-unlines (unit_lines d) (lines_free d u g p))
