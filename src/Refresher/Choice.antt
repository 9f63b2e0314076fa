-- ===== src/Refresher/Choice.antt =====
-- Which entries `selectCandidates` takes.
use dns_cache.Prelude.{
  ℕ, zero, suc, ◌≤◌, ◌≡◌, refl, sym, ap, ◌∙◌, arith, ◌⊎◌, inl, inr, Bool, true, false, not, List,
  [], ◌∷◌, take, if◌then◌else◌, In, In-take, All, All-In, length, length-take,
}
use dns_cache.Prelude.Decimal.{Bytes}
use dns_cache.Prelude.Int.{ℤ, pos, ◌≤ℤ◌, leb_ℤ}
use dns_cache.Time.{Instant, Duration}
use dns_cache.Entry.{Entry}
use dns_cache.CacheConfig.{Config, usual}
use dns_cache.Refresher.{
  Refresher, Snapshot, Candidate, Verdict, cold, backs_off, early, due, Sorted, SortSlice, less,
  backing_off, remaining, threshold, judge, candidates, chosen, max_refresh_per_cycle,
}

-- What a cut of a sorted list leaves out does not come before anything it keeps.
take-best :
    {A : Type 0} (lt : A → A → Bool) (n : ℕ) (l : List A) (y : A)
    → Sorted lt l
    → In y l
    → In y (take n l) ⊎ ((length (take n l) ≡ n) × All (λ x. lt y x ≡ false) (take n l))
take-best lt zero l y s m = inr (refl, tt)
take-best lt (suc n) [] y s m = absurd m
take-best lt (suc n) (x ∷ l) y s (inl e) = inl (inl e)
take-best lt (suc n) (x ∷ l) y s (inr m) = elim (take-best lt n l y s.1 m) [
  | inl kept ↦ inl (inr kept)
  | inr (full, before) ↦ inr (ap suc full, (All-In (λ z. lt z x ≡ false) y l s.0 m, before))
]

pub Verdict-cases :
    (v : Verdict) → (v ≡ cold) ⊎ (v ≡ backs_off) ⊎ (v ≡ early) ⊎ ((o : Bool) × (v ≡ due o))
Verdict-cases cold = inl refl
Verdict-cases backs_off = inr (inl refl)
Verdict-cases early = inr (inr (inl refl))
Verdict-cases (due o) = inr (inr (inr (o, refl)))

judge_cases :
    (unusual waits past soon o : Bool)
    → (if unusual
        then cold
        else if waits
        then backs_off
        else if past
        then due true
        else if soon
        then due false
        else early)
      ≡ due o
    → (unusual ≡ false) × (waits ≡ false) × (o ≡ past) × ((o ≡ true) ⊎ (soon ≡ true))
judge_cases true waits past soon o h = absurd (ground arith)
judge_cases false true past soon o h = absurd (ground arith)
judge_cases false false true soon o h = ground arith
judge_cases false false false true o h = ground arith
judge_cases false false false false o h = absurd (ground arith)

module _ {RR : Type 0} where
  less_asym : (a b : Candidate RR) → less a b ≡ true → less b a ≡ false
  less_asym a b h = ground arith

  less_trans : (a b c : Candidate RR) → less a b ≡ false → less b c ≡ false → less a c ≡ false
  less_trans a b c h k = ground arith

  module _ (zone : Instant → ℤ) (fraction : Duration → ℕ → Duration) (cfg : Config) (rf : Refresher)
      (now : Instant) where
    -- A stored entry that is usual, does not back off, and whose time to be served is over, or
    -- nearly so
    pub record IsDue (snapshot : Snapshot RR) (c : Candidate RR) : Type 0 where
      pub key : Bytes
      pub stored : In (key, c.entry) snapshot
      pub is_usual : usual zone cfg c.entry now ≡ true
      pub tried : backing_off rf.failures key now ≡ false
      pub over : c.overdue ≡ leb_ℤ (remaining zone fraction cfg c.entry now) (pos 0)
      pub near :
          (c.overdue ≡ true)
          ⊎ (remaining zone fraction cfg c.entry now
              ≤ℤ threshold zone fraction cfg rf.interval c.entry)

    judge-due :
        (k : Bytes) (e : Entry RR) (o : Bool) (snapshot : Snapshot RR)
        → judge zone fraction cfg rf now k e ≡ due o
        → In (k, e) snapshot
        → IsDue snapshot (record { entry = e; overdue = o })
    unfolding judge
    judge-due k e o snapshot h m =
        let judged =
          judge_cases (not (usual zone cfg e now)) (backing_off rf.failures k now)
            (leb_ℤ (remaining zone fraction cfg e now) (pos 0))
            (leb_ℤ (remaining zone fraction cfg e now) (threshold zone fraction cfg rf.interval e))
            o h in
        record {
          key = k;
          stored = m;
          is_usual = ground arith;
          tried = judged.1;
          over = judged.2;
          near = elim judged.3 [ inl past ↦ inl past | inr soon ↦ inr (ground arith) ];
        }

    pub In-candidates :
        (snapshot whole : Snapshot RR) (c : Candidate RR)
        → ((p : Bytes × Entry RR) → In p snapshot → In p whole)
        → In c (candidates zone fraction cfg rf now snapshot).0
        → IsDue whole c
    unfolding candidates
    In-candidates [] whole c inside m = absurd m
    In-candidates ((k, e) ∷ rest) whole c inside m =
        let later = In-candidates rest whole c (λ p n. inside p (inr n)) in
        elim (Verdict-cases (judge zone fraction cfg rf now k e)) [
          | inl v ↦ later (rw (candidates, v) at m)
          | inr (inl v) ↦ later (rw (candidates, v) at m)
          | inr (inr (inl v)) ↦ later (rw (candidates, v) at m)
          | inr (inr (inr (o, v))) ↦ elim (rw (candidates, v) at m) [
            | inl same ↦ rw same (judge-due k e o whole v (inside (k, e) (inl refl)))
            | inr n ↦ later n
          ]
        ]

    -- Conversely, every entry that is due is among the candidates.
    candidates_complete :
        (snapshot : Snapshot RR) (k : Bytes) (e : Entry RR) (o : Bool)
        → In (k, e) snapshot
        → judge zone fraction cfg rf now k e ≡ due o
        → In (record { entry = e; overdue = o }) (candidates zone fraction cfg rf now snapshot).0
    unfolding candidates
    candidates_complete [] k e o m v = absurd m
    candidates_complete ((k', e') ∷ rest) k e o (inl same) v =
        let v' : judge zone fraction cfg rf now k' e' ≡ due o =
          ap (λ (p : Bytes × Entry RR). judge zone fraction cfg rf now p.0 p.1) (sym same) ∙ v in
        rw (candidates, v')
          (inl (ap (λ (p : Bytes × Entry RR). record { entry = p.1; overdue = o }) same))
    candidates_complete ((k', e') ∷ rest) k e o (inr m) v =
        let later = candidates_complete rest k e o m v in
        elim (Verdict-cases (judge zone fraction cfg rf now k' e')) [
          | inl w ↦ rw (candidates, w) later
          | inr (inl w) ↦ rw (candidates, w) later
          | inr (inr (inl w)) ↦ rw (candidates, w) later
          | inr (inr (inr (o', w))) ↦ rw (candidates, w) (inr later)
        ]

    module _ (sorting : SortSlice (Candidate RR)) (snapshot : Snapshot RR) where
      open sorting use {sort_slice, In-sort_slice, sort_slice-Sorted}

      -- Everything chosen for a refresh is stored, of a usual domain, not backing off, and past
      -- the time for which it may be served or within the threshold before that; and at most 500
      -- entries are chosen.
      pub chosen-IsDue :
          (length (chosen zone fraction cfg sorting rf now snapshot) ≤ max_refresh_per_cycle)
          × ((c : Candidate RR)
              → In c (chosen zone fraction cfg sorting rf now snapshot)
              → IsDue snapshot c)
      unfolding chosen
      chosen-IsDue = (
        omega (
          arith,
          length-take max_refresh_per_cycle
              (sort_slice less (candidates zone fraction cfg rf now snapshot).0),
        ),
        λ c m.
            In-candidates snapshot snapshot c (λ p n. n)
              ((In-sort_slice less c _).0 (In-take max_refresh_per_cycle c _ m)),
      )

      -- An entry that is due is chosen, unless 500 are, none of which it comes before: those whose
      -- time is over come first, and among equals those with more hits.
      pub chosen-best :
          (k : Bytes) (e : Entry RR) (o : Bool)
          → In (k, e) snapshot
          → judge zone fraction cfg rf now k e ≡ due o
          → let cs = chosen zone fraction cfg sorting rf now snapshot in
            let c : Candidate RR = record { entry = e; overdue = o } in
            In c cs ⊎ ((length cs ≡ max_refresh_per_cycle) × All (λ x. less c x ≡ false) cs)
      unfolding chosen
      chosen-best k e o m v =
          take-best less max_refresh_per_cycle
            (sort_slice less (candidates zone fraction cfg rf now snapshot).0) _
            (sort_slice-Sorted less _ less_asym less_trans)
            ((In-sort_slice less _ _).1 (candidates_complete snapshot k e o m v))
