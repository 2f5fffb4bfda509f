-- ===== src/Tftp/Granting.antt =====
-- The files that tftpd serves (`validate_access` of iputils-ns/tftpd.c): where they lie and who may use
-- them.
use baseliner_docker.Base.{
  ℕ, List, Option, none, some, Bool, true, false, ◌≡◌, refl, if◌then◌else◌, arith, Bool-cases, inl,
  inr, ap, sym, ◌∙◌,
}
use baseliner_docker.Tftp.Request.{
  eaccess, Opcode, rrq, wrq, StatResult, no_entry, stat_failed, found, System, climbs, strip_slash,
  full_name, permitted, open_result, check_stat, in_dir, validate_access,
}
use baseliner_docker.Tftp.Paths.{In, full_name-In, strip_clean}

-- Others may read the file, or write it, as the request needs.
abbrev pub Public : Opcode → StatResult → Type 0
Public rrq r = (writable : Bool) × (r ≡ found true writable)
Public wrq r = (readable : Bool) × (r ≡ found readable true)

-- The file of a path may be served for a request.
pub record Granted (y : System) (name : List ℕ) (op : Opcode) : Type 0 where
  pub dir : List ℕ
  pub served : y.dir ≡ some dir
  pub below : In 1534 dir (full_name dir name)
  pub mode : Public op (y.stat (full_name dir name))
  pub opened : y.open_file (full_name dir name) op ≡ none

opened_of : (o : Option ℕ) → open_result o ≡ 0 → o ≡ none
opened_of none h = refl
opened_of (some e) h = absurd (omega arith)

permitted-Public : (op : Opcode) (a b : Bool) → permitted op a b ≡ true → Public op (found a b)
permitted-Public rrq a b h = (b, ap (λ v. found v b) h)
permitted-Public wrq a b h = (a, ap (found a) h)

check_stat-Public :
    (y : System) (path : List ℕ) (op : Opcode) (r : StatResult)
    → check_stat y path op r ≡ 0
    → Public op r × (y.open_file path op ≡ none)
check_stat-Public y path op no_entry h = absurd (omega arith)
check_stat-Public y path op stat_failed h = absurd (omega arith)
check_stat-Public y path op (found a b) h = elim (Bool-cases (permitted op a b)) [
  | inl p ↦ (permitted-Public op a b p, opened_of (y.open_file path op) (sym (chosen p) ∙ h))
  | inr p ↦ absurd (let h' : eaccess ≡ 0 = sym (chosen p) ∙ h in omega arith)
]
  where
    chosen :
        {v : Bool}
        → permitted op a b ≡ v
        → check_stat y path op (found a b)
          ≡ (if v then open_result (y.open_file path op) else eaccess)
    chosen p = ap (λ (t : Bool). if t then open_result (y.open_file path op) else eaccess) p

in_dir-Granted :
    (y : System) (name : List ℕ) (op : Opcode) (o : Option (List ℕ))
    → climbs name ≡ false
    → y.dir ≡ o
    → in_dir y name op o ≡ 0
    → Granted y name op
unfolding full_name
in_dir-Granted y name op none c e h = absurd (omega arith)
in_dir-Granted y name op (some d) c e h =
    let (p, o) = check_stat-Public y (full_name d name) op (y.stat (full_name d name)) h in
    record {
      dir = d;
      served = e;
      below = full_name-In 1534 d (strip_slash name) (strip_clean name c);
      mode = p;
      opened = o;
    }

pub validate_access-Granted :
    (y : System) (name : List ℕ) (op : Opcode) → validate_access y name op ≡ 0 → Granted y name op
unfolding validate_access
validate_access-Granted y name op h = elim (Bool-cases (climbs name)) [
  | inl c ↦ absurd (let h' : eaccess ≡ 0 = sym (chosen c) ∙ h in omega arith)
  | inr c ↦ in_dir-Granted y name op y.dir c refl (sym (chosen c) ∙ h)
]
  where
    chosen :
        {v : Bool}
        → climbs name ≡ v
        → validate_access y name op ≡ (if v then eaccess else in_dir y name op y.dir)
    chosen c = ap (λ (t : Bool). if t then eaccess else in_dir y name op y.dir) c
