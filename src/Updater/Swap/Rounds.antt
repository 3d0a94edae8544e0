-- ===== src/Updater/Swap/Rounds.antt =====
-- common/n02_update.cpp, `SwapPackage`: a round of its loop, and the step that takes it back.
use kaillera_client.Prelude.{
  ℕ, zero, suc, ◌+◌, ◌≤◌, ◌≡◌, ◌≢◌, ◌⊎◌, inl, inr, refl, ap, ◌∙◌, sym, subst, List, Bool, true,
  false, Option, none, some, if◌then◌else◌, arith, Bool-cases, Option-cases, bytes_eq, bytes_eq→eq,
  bytes_eq_refl, lower_all,
}
use mathlib.Core.Option.{some-injective}
use kaillera_client.Updater.Files.{FileSystem, IsFileSystem, Apart, old_file_path}
use kaillera_client.Updater.Swap.{
  Swapped, full_name, new_name, file_exists, free_old, replace_file, swap_file, put_back,
}
use kaillera_client.Updater.Swap.Undone.{replace_undone, swap_undone, put_undone}

pub Apart-sym : (p q : List ℕ) → Apart p q → Apart q p
Apart-sym p q h e = h (sym e)

-- Two names are those of one file or of two.
pub Apart-cases : (p q : List ℕ) → (lower_all p ≡ lower_all q) ⊎ Apart p q
Apart-cases p q = elim (Bool-cases (bytes_eq (lower_all p) (lower_all q))) [
  | inl e ↦ inl (bytes_eq→eq (lower_all p) (lower_all q) e)
  | inr ne ↦ inr (λ e. absurd (
      ground
        (arith, ne, bytes_eq_refl (lower_all p), ap (λ (x : List ℕ). bytes_eq (lower_all p) x) e)))
]

-- The file goes back to its name: only `old` can have changed.
restored :
    (fs : FileSystem)
    → IsFileSystem fs
    → (s t : fs.Store) (full old x : List ℕ) → (fs.move s full old false).0 ≡ true
    → ((y : List ℕ) → fs.read t y ≡ fs.read (fs.move s full old false).1 y)
    → Apart full old
    → (fs.move t old full false).0 ≡ true
    → Apart x old
    → fs.read (fs.move t old full false).1 x ≡ fs.read s x
restored fs laws s t full old x gone same apart back k =
    let held = same old ∙ laws.move_to s full old false gone apart in
    elim (Apart-cases x full) [
      | inl it ↦
          laws.case_blind (fs.move t old full false).1 x full it
          ∙ laws.move_to t old full false back (Apart-sym full old apart)
          ∙ held
          ∙ laws.case_blind s full x (sym it)
      | inr other ↦
          laws.move_other t old full x false k other
          ∙ same x
          ∙ laws.move_other s full old x false other k
    ]

module _ (fs : FileSystem) (laws : IsFileSystem fs) (dir : List ℕ) where
  -- The name is not one of the `.old` names of the path.
  abbrev pub NotOld : List ℕ → List ℕ → Type 0
  NotOld path x = (n : ℕ) → n ≤ 9 → Apart x (old_file_path dir path n)

  -- The names of a path are those of different files.
  pub record OwnNames (path : List ℕ) : Type 0 where
    pub full_new : Apart (full_name fs dir path) (new_name fs dir path)
    pub full_old : NotOld path (full_name fs dir path)
    pub new_old : NotOld path (new_name fs dir path)

  -- The search for a free name touches nothing but such names, and gives one of them.
  abbrev Freed : List ℕ → fs.Store → Option (List ℕ) × fs.Store → Type 0
  Freed path s r =
      ((x : List ℕ) → NotOld path x → fs.read r.1 x ≡ fs.read s x)
      × ((name : List ℕ) → r.0 ≡ some name → (m : ℕ) × (m ≤ 9) × (name ≡ old_file_path dir path m))

  free_old_lem :
      (rounds n : ℕ) (path : List ℕ) (s : fs.Store)
      → n + rounds ≤ 10
      → Freed path s (free_old fs dir rounds n path s)
  unfolding free_old
  free_old_lem zero n path s h = (λ x k. refl, λ name e. cc)
  free_old_lem (suc rounds) n path s h =
      let old = old_file_path dir path n in
      let cleared = fs.delete s old in
      let (same, found) = free_old_lem rounds (n + 1) path cleared (omega arith) in
      either (file_exists fs dir cleared old)
        (λ x k. same x k ∙ laws.delete_other s old x (k n (omega arith)), found)
    where
      either :
          (b : Bool)
          → Freed path s
              (free_old fs dir rounds (n + 1) path (fs.delete s (old_file_path dir path n)))
          → Freed path s (
              if b
              then free_old fs dir rounds (n + 1) path (fs.delete s (old_file_path dir path n))
              else (some (old_file_path dir path n), fs.delete s (old_file_path dir path n)))
      either true f = f
      either false f = (
        λ x k. laws.delete_other s (old_file_path dir path n) x (k n (omega arith)),
        λ name e. (n, omega arith, sym (some-injective (old_file_path dir path n) name e)),
      )

  -- What a step did to the files of the path, and how it can be taken back.
  pub record Moved (path : List ℕ) (s : fs.Store) (step : Swapped) (s' : fs.Store) : Type 0 where
    pub own : step.path ≡ path
    pub placed : fs.read s' (full_name fs dir path) ≡ fs.read s (new_name fs dir path)
    pub emptied : fs.read s' (new_name fs dir path) ≡ none
    pub some_new : fs.read s (new_name fs dir path) ≢ none
    pub other :
        (x : List ℕ)
        → NotOld path x
        → Apart x (full_name fs dir path)
        → Apart x (new_name fs dir path)
        → fs.read s' x ≡ fs.read s x
    pub kept :
        ((step.old ≡ none) × (fs.read s (full_name fs dir path) ≡ none))
        ⊎ ((m : ℕ) × (step.old ≡ some (old_file_path dir path m))
            × (m ≤ 9)
            × (fs.read s' (old_file_path dir path m) ≡ fs.read s (full_name fs dir path)))

  -- A round of the loop: a step, or nothing but `.old` names touched.
  abbrev pub Round : List ℕ → fs.Store → Option Swapped × fs.Store → Type 0
  Round path s r =
      ((r.0 ≡ none) × ((x : List ℕ) → NotOld path x → fs.read r.1 x ≡ fs.read s x))
      ⊎ ((step : Swapped) × (r.0 ≡ some step) × Moved path s step r.1)

  -- The file is there, and `old` is a free name for it.
  replace_file-Round :
      (path : List ℕ) (m : ℕ) (s : fs.Store)
      → OwnNames path
      → m ≤ 9
      → replace_undone fs dir path (old_file_path dir path m) s ≡ true
      → Round path s (replace_file fs dir path (old_file_path dir path m) s)
  unfolding replace_file replace_undone
  replace_file-Round path m s own h undone =
      let full = full_name fs dir path in
      let neu = new_name fs dir path in
      let old = old_file_path dir path m in
      let away = fs.move s full old false in
      let placed = fs.move away.1 neu full false in
      let full_old = own.full_old m h in
      let new_old = own.new_old m h in
      let new_full = Apart-sym full neu own.full_new in
      elim (Bool-cases away.0) [
        | inr stuck ↦ rw stuck (inl (refl, λ x k. laws.move_fails s full old x false stuck))
        | inl gone ↦ elim (Bool-cases placed.0) [
          | inr stuck ↦
              let back : (fs.move placed.1 old full false).0 ≡ true =
                ground (arith, undone, gone, stuck) in
              rw (gone, stuck)
                (inl (
                  refl,
                  λ x k.
                      restored fs laws s placed.1 full old x gone
                        (λ y. laws.move_fails away.1 neu full y false stuck) full_old back (k m h),
                ))
          | inl done ↦
              let (emptied, some_new) = laws.move_from away.1 neu full false done new_full in
              let untouched = laws.move_other s full old neu false new_full new_old in
              rw (gone, done)
                (inr (
                  record { path = path; old = some old },
                  refl,
                  record {
                    own = refl;
                    placed = laws.move_to away.1 neu full false done new_full ∙ untouched;
                    emptied = emptied;
                    some_new = λ e. some_new (untouched ∙ e);
                    other = λ x k a b.
                        laws.move_other away.1 neu full x false b a
                        ∙ laws.move_other s full old x false a (k m h);
                    kept = inr (
                      m,
                      refl,
                      h,
                      laws.move_other away.1 neu full old false (Apart-sym neu old new_old)
                            (Apart-sym full old full_old)
                          ∙ laws.move_to s full old false gone full_old,
                    );
                  },
                ))
        ]
      ]

  Round-shift :
      (path : List ℕ) (s s1 : fs.Store) (r : Option Swapped × fs.Store)
      → OwnNames path
      → ((x : List ℕ) → NotOld path x → fs.read s1 x ≡ fs.read s x)
      → Round path s1 r
      → Round path s r
  Round-shift path s s1 r own same (inl (e, rest)) = inl (e, λ x k. rest x k ∙ same x k)
  Round-shift path s s1 r own same (inr (step, e, v)) =
      let full = full_name fs dir path in
      let full_same = same full own.full_old in
      let new_same = same (new_name fs dir path) own.new_old in
      inr (
        step,
        e,
        record {
          own = v.own;
          placed = v.placed ∙ new_same;
          emptied = v.emptied;
          some_new = λ n. v.some_new (new_same ∙ n);
          other = λ x k a b. v.other x k a b ∙ same x k;
          kept = elim v.kept [
            | inl (n, free) ↦ inl (n, sym full_same ∙ free)
            | inr (m, n, h, held) ↦ inr (m, n, h, held ∙ full_same)
          ];
        },
      )

  -- The file is not there.
  add_file-Round :
      (path : List ℕ) (s : fs.Store)
      → OwnNames path
      → fs.read s (full_name fs dir path) ≡ none
      → let placed = fs.move s (new_name fs dir path) (full_name fs dir path) false in
        Round path s (
          if placed.0
          then (some (record { path = path; old = none }), placed.1)
          else (none, placed.1))
  add_file-Round path s own free =
      let full = full_name fs dir path in
      let neu = new_name fs dir path in
      let placed = fs.move s neu full false in
      let new_full = Apart-sym full neu own.full_new in
      elim (Bool-cases placed.0) [
        | inr stuck ↦ rw stuck (inl (refl, λ x k. laws.move_fails s neu full x false stuck))
        | inl done ↦
            let (emptied, some_new) = laws.move_from s neu full false done new_full in
            rw done (
              inr (
                record { path = path; old = none },
                refl,
                record {
                  own = refl;
                  placed = laws.move_to s neu full false done new_full;
                  emptied = emptied;
                  some_new = some_new;
                  other = λ x k a b. laws.move_other s neu full x false b a;
                  kept = inl (refl, free);
                },
              ))
      ]

  file_exists_lem :
      (s : fs.Store) (x : List ℕ)
      → ((file_exists fs dir s x ≡ false) × (fs.read s x ≡ none))
        ⊎ ((file_exists fs dir s x ≡ true) × (fs.read s x ≢ none))
  unfolding file_exists
  file_exists_lem s x = elim (Option-cases (fs.read s x)) [
    | inl e ↦ inl (ap (λ (o : Option (List ℕ)). elim o [ none ↦ false | some b ↦ true ]) e, e)
    | inr (b, e) ↦ inr (
      ap (λ (o : Option (List ℕ)). elim o [ none ↦ false | some b ↦ true ]) e,
      λ z. absurd (ground (arith, z, e)),
    )
  ]

  pub swap_file-Round :
      (path : List ℕ) (s : fs.Store)
      → OwnNames path
      → swap_undone fs dir path s ≡ true
      → Round path s (swap_file fs dir path s)
  unfolding swap_file swap_undone
  swap_file-Round path s own undone = elim (file_exists_lem s (full_name fs dir path)) [
    | inl (missing, free) ↦ rw (missing, swap_file) (add_file-Round path s own free)
    | inr (present, there) ↦
        rw (present, swap_file)
          (elim (Option-cases (free_old fs dir 9 1 path s).0) [
            | inl e ↦ rw e (inl (refl, (free_old_lem 9 1 path s (omega arith)).0))
            | inr (name, e) ↦
                let (same, found) = free_old_lem 9 1 path s (omega arith) in
                let (m, h, o) = found name e in
                let s1 = (free_old fs dir 9 1 path s).1 in
                let taken_back : replace_undone fs dir path name s1 ≡ true =
                  ground (arith, undone, present, e) in
                let round =
                  replace_file-Round path m s1 own h
                    (subst (λ (y : List ℕ). replace_undone fs dir path y s1 ≡ true) o taken_back) in
                rw e (
                  Round-shift path s s1 (replace_file fs dir path name s1) own same (
                    subst (λ (y : List ℕ). Round path s1 (replace_file fs dir path y s1)) (sym o)
                      round))
          ])
  ]

  -- The step taken back, from where it left the names of the path.
  pub put_back_lem :
      (path : List ℕ) (s s' t : fs.Store) (step : Swapped) (x : List ℕ)
      → OwnNames path
      → Moved path s step s'
      → put_undone fs dir step t ≡ true
      → fs.read t (full_name fs dir path) ≡ fs.read s' (full_name fs dir path)
      → fs.read t (new_name fs dir path) ≡ fs.read s' (new_name fs dir path)
      → ((m : ℕ)
          → m ≤ 9
          → fs.read t (old_file_path dir path m) ≡ fs.read s' (old_file_path dir path m))
      → NotOld path x
      → fs.read t x ≡ fs.read s' x
      → fs.read (put_back fs dir step t) x ≡ fs.read s x
  unfolding put_back put_undone
  put_back_lem path s s' t step x own v undone full_same new_same old_same k same =
      subst
        (λ (p : List ℕ).
          fs.read (put_back fs dir (record { path = p; old = step.old }) t) x ≡ fs.read s x)
        (sym v.own)
        (elim v.kept [
          | inl (n, free) ↦ rw n (elim (Apart-cases x full) [
            | inl it ↦
                laws.case_blind taken.1 x full it
                ∙ taken_full
                ∙ sym free
                ∙ laws.case_blind s full x (sym it)
            | inr not_full ↦ rest not_full
          ])
          | inr (m, n, h, held) ↦
              let old = old_file_path dir path m in
              let old_full = Apart-sym full old (own.full_old m h) in
              let old_new = Apart-sym neu old (own.new_old m h) in
              let held' : fs.read taken.1 old ≡ fs.read s full =
                laws.move_other t full neu old true old_full old_new ∙ old_same m h ∙ held in
              let returned : (fs.move taken.1 old full false).0 ≡ true =
                ground (arith, undone', n) in
              rw n (elim (Apart-cases x full) [
                | inl it ↦
                    laws.case_blind (fs.move taken.1 old full false).1 x full it
                    ∙ laws.move_to taken.1 old full false returned old_full
                    ∙ held'
                    ∙ laws.case_blind s full x (sym it)
                | inr not_full ↦
                    laws.move_other taken.1 old full x false (k m h) not_full ∙ rest not_full
              ])
        ])
    where
      full : List ℕ
      full = full_name fs dir path

      neu : List ℕ
      neu = new_name fs dir path

      taken : Bool × fs.Store
      taken = fs.move t full neu true

      undone' : put_undone fs dir (record { path = path; old = step.old }) t ≡ true
      undone' =
          subst (λ (p : List ℕ). put_undone fs dir (record { path = p; old = step.old }) t ≡ true)
            v.own undone

      went : taken.0 ≡ true
      went = ground (arith, undone')

      taken_full : fs.read taken.1 full ≡ none
      taken_full = (laws.move_from t full neu true went own.full_new).0

      -- The names but the full one are as they were before the step.
      rest : Apart x full → fs.read taken.1 x ≡ fs.read s x
      rest not_full = elim (Apart-cases x neu) [
        | inl it ↦
            laws.case_blind taken.1 x neu it
            ∙ laws.move_to t full neu true went own.full_new
            ∙ full_same
            ∙ v.placed
            ∙ laws.case_blind s neu x (sym it)
        | inr not_new ↦
            laws.move_other t full neu x true not_full not_new ∙ same ∙ v.other x k not_full not_new
      ]
