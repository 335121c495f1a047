-- ===== src/SpanningTree/Parameters/Spec.antt =====
-- What `Validate` admits, stated apart from the code: the number that each key stands for, the
-- range of each, and the relations between them.
use ovs_webui.Prelude.{
  ℕ, ◌+◌, ◌-◌, ◌*◌, ◌%◌, ◌^◌, ◌≤◌, ◌<◌, ◌≡◌, ◌⊎◌, inl, refl, ap, Bool, true, false, String, List,
  Option, none, some, arith, length, ltb, not, ◌==◌,
}
use ovs_webui.SpanningTree.Decimal.{is_decimal, value, parse_uint}
use ovs_webui.SpanningTree.Parameters.{
  Raw, Other, Code, valid, Validation, Reading, good, no_integer, out_of_range, reading, number,
  read, relate, caveat, validate_stp, validate_rstp, validate, in_range, report, exclusive, add,
  unavailable,
}

-- The number that a native value stands for, under the default of its key.
abbrev pub Denotes : Option Raw → ℕ → ℕ → Type 0
Denotes none fallback n = n ≡ fallback
Denotes (some Raw.other) fallback n = ⊥
Denotes (some (Raw.text t)) fallback n =
    (0 < length t) × (length t ≤ 128) × (is_decimal t ≡ true) × (value t ≡ n)

reading-good :
    (raw : Option Raw) (fallback lo hi : ℕ) {n : ℕ}
    → lo ≤ fallback
    → fallback ≤ hi
    → reading raw fallback lo hi ≡ good n
    → Denotes raw fallback n × (lo ≤ n) × (n ≤ hi)
unfolding reading in_range parse_uint
reading-good none fallback lo hi a b h = ground arith
reading-good (some Raw.other) fallback lo hi a b h = cc
reading-good (some (Raw.text t)) fallback lo hi a b h = ground arith

good-reading :
    (raw : Option Raw) (fallback lo hi n : ℕ)
    → Denotes raw fallback n
    → lo ≤ n
    → n ≤ hi
    → hi < 2 ^ 64
    → reading raw fallback lo hi ≡ good n
unfolding reading in_range parse_uint
good-reading none fallback lo hi n d a b c = ground arith
good-reading (some Raw.other) fallback lo hi n d a b c = absurd d
good-reading (some (Raw.text t)) fallback lo hi n d a b c = ground arith

report-valid :
    (r : Reading) (key : String) (v : Validation)
    → (report r key v).state ≡ valid
    → (v.state ≡ valid) × (n : ℕ) × (r ≡ good n)
unfolding report add
report-valid (good n) key v h = (h, n, refl)
report-valid no_integer key v h = cc
report-valid out_of_range key v h = cc

relate-valid :
    (a b : Option ℕ) (bad : ℕ → ℕ → Bool) (c : Code) (fields : List String) (v : Validation)
    → (relate a b bad c fields v).state ≡ valid
    → v.state ≡ valid
unfolding relate add
relate-valid (some a) (some b) bad c fields v h = ground arith
relate-valid (some a) none bad c fields v h = h
relate-valid none (some b) bad c fields v h = h
relate-valid none none bad c fields v h = h

relate-valid_bad :
    (oa ob : Option ℕ) {a b : ℕ} (bad : ℕ → ℕ → Bool) (c : Code) (fields : List String)
    (v : Validation)
    → oa ≡ some a
    → ob ≡ some b
    → (relate oa ob bad c fields v).state ≡ valid
    → bad a b ≡ false
unfolding relate add
relate-valid_bad (some a) (some b) bad c fields v p q h = ground arith
relate-valid_bad (some a) none bad c fields v p q h = cc
relate-valid_bad none ob bad c fields v p q h = cc

caveat-valid :
    (explicit : Option Raw) (hello : Option ℕ) (v : Validation)
    → (caveat explicit hello v).state ≡ valid
    → v.state ≡ valid
unfolding caveat
caveat-valid explicit none v h = h
caveat-valid explicit (some n) v h = ground arith

caveat-valid_native :
    (explicit : Option Raw) (oh : Option ℕ) {hello : ℕ} (v : Validation)
    → oh ≡ some hello
    → (caveat explicit oh v).state ≡ valid
    → (explicit ≡ none) ⊎ (hello ≡ 1)
unfolding caveat
caveat-valid_native explicit none v p h = cc
caveat-valid_native none (some n) v p h = inl refl
caveat-valid_native (some raw) (some n) v p h = ground arith

relate_pass :
    (a b : ℕ) (bad : ℕ → ℕ → Bool) (c : Code) (fields : List String) (v : Validation)
    → bad a b ≡ false
    → relate (some a) (some b) bad c fields v ≡ v
unfolding relate
relate_pass a b bad c fields v h = rw h

caveat_pass :
    (explicit : Option Raw) (h : ℕ) (v : Validation)
    → (explicit ≡ none) ⊎ (h ≡ 1)
    → caveat explicit (some h) v ≡ v
unfolding caveat
caveat_pass none h v e = refl
caveat_pass (some raw) h v e = ground arith

-- The seven numbers that the daemon would be given.
pub record Settings : Type 0 where
  pub stp_priority : ℕ
  pub stp_hello : ℕ
  pub stp_age : ℕ
  pub stp_delay : ℕ
  pub rstp_priority : ℕ
  pub rstp_age : ℕ
  pub rstp_delay : ℕ

-- Each number is what its key denotes, within the range of the key.
pub record IsRead (m : Other) (s : Settings) : Type 0 where
  pub stp_priority : Denotes (m "stp-priority") 32768 s.stp_priority × (s.stp_priority ≤ 65535)
  pub stp_hello :
      Denotes (m "stp-hello-time") 2 s.stp_hello × (1 ≤ s.stp_hello) × (s.stp_hello ≤ 10)
  pub stp_age : Denotes (m "stp-max-age") 20 s.stp_age × (6 ≤ s.stp_age) × (s.stp_age ≤ 40)
  pub stp_delay :
      Denotes (m "stp-forward-delay") 15 s.stp_delay × (4 ≤ s.stp_delay) × (s.stp_delay ≤ 30)
  pub rstp_priority : Denotes (m "rstp-priority") 32768 s.rstp_priority × (s.rstp_priority ≤ 61440)
  pub rstp_age : Denotes (m "rstp-max-age") 20 s.rstp_age × (6 ≤ s.rstp_age) × (s.rstp_age ≤ 40)
  pub rstp_delay :
      Denotes (m "rstp-forward-delay") 15 s.rstp_delay × (4 ≤ s.rstp_delay) × (s.rstp_delay ≤ 30)

-- The relations between the numbers, and the two rules that are not about one protocol's timers.
pub record IsAdmissible (stp rstp : Bool) (m : Other) (s : Settings) : Type 0 where
  pub one_protocol : (stp ≡ false) ⊎ (rstp ≡ false)
  pub reads : IsRead m s
  pub hello_age : 2 * (s.stp_hello + 1) ≤ s.stp_age
  pub stp_age_delay : s.stp_age + 2 ≤ 2 * s.stp_delay
  pub hello_native : (m "stp-hello-time" ≡ none) ⊎ (s.stp_hello ≡ 1)
  pub priority_grid : s.rstp_priority % 4096 ≡ 0
  pub rstp_age_delay : s.rstp_age + 2 ≤ 2 * s.rstp_delay

module _ (m : Other) where
  abbrev StpReadings : ℕ → ℕ → ℕ → ℕ → Type 0
  StpReadings p h a d =
      (reading (m "stp-priority") 32768 0 65535 ≡ good p)
      × (reading (m "stp-hello-time") 2 1 10 ≡ good h)
      × (reading (m "stp-max-age") 20 6 40 ≡ good a)
      × (reading (m "stp-forward-delay") 15 4 30 ≡ good d)

  abbrev RstpReadings : ℕ → ℕ → ℕ → Type 0
  RstpReadings p a d =
      (reading (m "rstp-priority") 32768 0 61440 ≡ good p)
      × (reading (m "rstp-max-age") 20 6 40 ≡ good a)
      × (reading (m "rstp-forward-delay") 15 4 30 ≡ good d)

module _ (m : Other) (v : Validation) where
  validate_stp_sound :
      (validate_stp m v).state ≡ valid
      → (v.state ≡ valid)
        × (p h a d : ℕ) × StpReadings m p h a d
        × (ltb a (2 * (h + 1)) ≡ false)
        × (ltb (2 * (d - 1)) a ≡ false)
        × ((m "stp-hello-time" ≡ none) ⊎ (h ≡ 1))
  unfolding validate_stp read
  validate_stp_sound h6 =
      let h5 = caveat-valid _ _ _ h6 in
      let h4 = relate-valid _ _ _ _ _ _ h5 in
      let (h3, d, ed) = report-valid _ _ _ (relate-valid _ _ _ _ _ _ h4) in
      let (h2, a, ea) = report-valid _ _ _ h3 in
      let (h1, h, eh) = report-valid _ _ _ h2 in
      let (h0, p, ep) = report-valid _ _ _ h1 in
      (
        h0,
        p,
        h,
        a,
        d,
        (ep, eh, ea, ed),
        relate-valid_bad _ _ _ _ _ _ (ap number eh) (ap number ea) h4,
        relate-valid_bad _ _ _ _ _ _ (ap number ea) (ap number ed) h5,
        caveat-valid_native _ _ _ (ap number eh) h6,
      )

  validate_stp_complete :
      (p h a d : ℕ)
      → StpReadings m p h a d
      → ltb a (2 * (h + 1)) ≡ false
      → ltb (2 * (d - 1)) a ≡ false
      → (m "stp-hello-time" ≡ none) ⊎ (h ≡ 1)
      → validate_stp m v ≡ v
  unfolding validate_stp read report
  validate_stp_complete p h a d (ep, eh, ea, ed) ha ad native =
      rw (ep, eh, ea, ed, relate_pass h a _ _ _ v ha, relate_pass a d _ _ _ v ad)
        (caveat_pass (m "stp-hello-time") h v native)

  validate_rstp_sound :
      (validate_rstp m v).state ≡ valid
      → (v.state ≡ valid)
        × (p a d : ℕ) × RstpReadings m p a d
        × (not (p % 4096 == 0) ≡ false)
        × (ltb (2 * (d - 1)) a ≡ false)
  unfolding validate_rstp read
  validate_rstp_sound h4 =
      let (h3, d, ed) = report-valid _ _ _ (relate-valid _ _ _ _ _ _ h4) in
      let (h2, a, ea) = report-valid _ _ _ h3 in
      let (h0, p, ep) = report-valid _ _ _ (relate-valid _ _ _ _ _ _ h2) in
      (
        h0,
        p,
        a,
        d,
        (ep, ea, ed),
        relate-valid_bad _ _ _ _ _ _ (ap number ep) (ap number ep) h2,
        relate-valid_bad _ _ _ _ _ _ (ap number ea) (ap number ed) h4,
      )

  validate_rstp_complete :
      (p a d : ℕ)
      → RstpReadings m p a d
      → not (p % 4096 == 0) ≡ false
      → ltb (2 * (d - 1)) a ≡ false
      → validate_rstp m v ≡ v
  unfolding validate_rstp read report
  validate_rstp_complete p a d (ep, ea, ed) pg ad =
      rw (ep, ea, ed, relate_pass p p _ _ _ v pg) (relate_pass a d _ _ _ v ad)

exclusive-valid :
    (stp rstp : Bool) (v : Validation)
    → (exclusive stp rstp v).state ≡ valid
    → (stp ≡ false) ⊎ (rstp ≡ false)
unfolding exclusive add
exclusive-valid stp rstp v h = ground arith

exclusive_pass :
    (stp rstp : Bool) (v : Validation) → (stp ≡ false) ⊎ (rstp ≡ false) → exclusive stp rstp v ≡ v
unfolding exclusive
exclusive_pass stp rstp v h = ground arith

ltb-false : (a b : ℕ) → ltb a b ≡ false → b ≤ a
ltb-false a b h = ground arith

age_delay : (a d : ℕ) → 4 ≤ d → ltb (2 * (d - 1)) a ≡ false → a + 2 ≤ 2 * d
age_delay a d p h = ground arith

on_grid : (p : ℕ) → not (p % 4096 == 0) ≡ false → p % 4096 ≡ 0
on_grid p h = ground arith

IsRead_of_readings :
    (m : Other) (s : Settings)
    → StpReadings m s.stp_priority s.stp_hello s.stp_age s.stp_delay
    → RstpReadings m s.rstp_priority s.rstp_age s.rstp_delay
    → IsRead m s
IsRead_of_readings m s (d1, d2, d3, d4) (e1, e2, e3) =
    let (a1, _, b1) = reading-good _ _ _ _ (omega arith) (omega arith) d1 in
    let a2 = reading-good _ _ _ _ (omega arith) (omega arith) d2 in
    let a3 = reading-good _ _ _ _ (omega arith) (omega arith) d3 in
    let a4 = reading-good _ _ _ _ (omega arith) (omega arith) d4 in
    let (a5, _, b5) = reading-good _ _ _ _ (omega arith) (omega arith) e1 in
    let a6 = reading-good _ _ _ _ (omega arith) (omega arith) e2 in
    let a7 = reading-good _ _ _ _ (omega arith) (omega arith) e3 in
    record {
      stp_priority = (a1, b1);
      stp_hello = a2;
      stp_age = a3;
      stp_delay = a4;
      rstp_priority = (a5, b5);
      rstp_age = a6;
      rstp_delay = a7;
    }

readings_of_IsRead :
    (m : Other) (s : Settings)
    → IsRead m s
    → StpReadings m s.stp_priority s.stp_hello s.stp_age s.stp_delay
      × RstpReadings m s.rstp_priority s.rstp_age s.rstp_delay
readings_of_IsRead m s r = (
  (
    good-reading _ _ _ _ _ r.stp_priority.0 (omega arith) r.stp_priority.1 (omega arith),
    good-reading _ _ _ _ _ r.stp_hello.0 r.stp_hello.1 r.stp_hello.2 (omega arith),
    good-reading _ _ _ _ _ r.stp_age.0 r.stp_age.1 r.stp_age.2 (omega arith),
    good-reading _ _ _ _ _ r.stp_delay.0 r.stp_delay.1 r.stp_delay.2 (omega arith),
  ),
  (
    good-reading _ _ _ _ _ r.rstp_priority.0 (omega arith) r.rstp_priority.1 (omega arith),
    good-reading _ _ _ _ _ r.rstp_age.0 r.rstp_age.1 r.rstp_age.2 (omega arith),
    good-reading _ _ _ _ _ r.rstp_delay.0 r.rstp_delay.1 r.rstp_delay.2 (omega arith),
  ),
)

-- `Validate` calls a configuration valid only if its keys stand for numbers that are admissible.
pub validate_sound :
    (stp rstp : Bool) (m : Other)
    → (validate (some stp) (some rstp) (some m)).state ≡ valid
    → (s : Settings) × IsAdmissible stp rstp m s
unfolding validate
validate_sound stp rstp m h =
    let (h1, rp, ra, rd, (e1, e2, e3), pg, rad) = validate_rstp_sound m _ h in
    let (h0, sp, sh, sa, sd, (d1, d2, d3, d4), ha, ad, native) = validate_stp_sound m _ h1 in
    let s : Settings = record {
      stp_priority = sp;
      stp_hello = sh;
      stp_age = sa;
      stp_delay = sd;
      rstp_priority = rp;
      rstp_age = ra;
      rstp_delay = rd;
    } in
    let r = IsRead_of_readings m s (d1, d2, d3, d4) (e1, e2, e3) in
    (
      s,
      record {
        one_protocol = exclusive-valid stp rstp _ h0;
        reads = r;
        hello_age = ltb-false _ _ ha;
        stp_age_delay = age_delay _ _ r.stp_delay.1 ad;
        hello_native = native;
        priority_grid = on_grid _ pg;
        rstp_age_delay = age_delay _ _ r.rstp_delay.1 rad;
      },
    )

-- Numbers that are admissible make the configuration valid, with no check reported.
pub validate_complete :
    (stp rstp : Bool) (m : Other) (s : Settings)
    → IsAdmissible stp rstp m s
    → validate (some stp) (some rstp) (some m) ≡ unavailable valid
unfolding validate
validate_complete stp rstp m s h =
    let (ds, es) = readings_of_IsRead m s h.reads in
    rw
      (
        exclusive_pass stp rstp (unavailable valid) h.one_protocol,
        validate_stp_complete m (unavailable valid) _ _ _ _ ds (ground arith) (ground arith)
            h.hello_native,
      )
      (validate_rstp_complete m (unavailable valid) _ _ _ es (ground arith) (ground arith))
