-- ===== src/Updater/Install/Fetched.antt =====
-- common/n02_update.cpp, `DownloadThread` and the deletions: which files they touch, and what a file
-- that has come holds.
use kaillera_client.Prelude.{
  ℕ, zero, suc, ◌+◌, ◌≤◌, ◌≡◌, refl, ◌∙◌, List, [], ◌∷◌, ◌++◌, Bool, true, false, not, ◌||◌, some,
  length, ltb, ◌==◌, if◌then◌else◌, bytes_eq→eq, Bool-cases, inl, inr, arith,
}
use kaillera_client.Updater.{PackageFile}
use kaillera_client.Updater.Files.{FileSystem, IsFileSystem, Apart, old_file_path}
use kaillera_client.Updater.Swap.{new_name}
use kaillera_client.Updater.Swap.Rounds.{NotOld}
use kaillera_client.Updater.Swap.Whole.{fetched, ApartFromAll, NotOldOf, Separate}
use kaillera_client.Updater.Install.{
  Response, Sunk, receive_chunks, http_get, download_file, download_files, delete_old,
  delete_old_files, delete_new_files,
}

module _ (fs : FileSystem) (laws : IsFileSystem fs) (sha : List ℕ → List ℕ) (opens : List ℕ → Bool)
    (dir : List ℕ) where
  -- The name holds what the manifest says of the file.
  abbrev pub IsGenuine : PackageFile → List ℕ → fs.Store → Type 0
  IsGenuine f name s =
      (bytes : List ℕ) × (fs.read s name ≡ some bytes)
      × (length bytes ≡ f.size)
      × (sha bytes ≡ f.sha256)

  -- The name is no `.new` name of the package.
  abbrev pub NotNewOf : List PackageFile → List ℕ → Type 0
  NotNewOf [] x = Unit
  NotNewOf (f ∷ files) x = Apart x (new_name fs dir f.path) × NotNewOf files x

  receive_chunks-other :
      (expected : ℕ) (name x : List ℕ) (chunks : List (Bool × List ℕ)) (complete : Bool)
      (got : List ℕ) (s : fs.Store)
      → Apart x name
      → fs.read (receive_chunks fs sha opens dir expected name chunks complete got s).store x
        ≡ fs.read s x
  unfolding receive_chunks
  receive_chunks-other expected name x [] complete got s h = refl
  receive_chunks-other expected name x ((cancel, bytes) ∷ chunks) complete got s h =
      let written = fs.write s name bytes in
      let one = laws.write_other s name bytes x h in
      let rest = receive_chunks-other expected name x chunks complete (got ++ bytes) written.1 h in
      elim (Bool-cases (cancel || ltb expected (length got + length bytes))) [
        | inl stop ↦ rw (stop, receive_chunks) refl
        | inr go ↦ elim (Bool-cases written.0) [
          | inr failed ↦ rw (go, failed, receive_chunks) one
          | inl done ↦ rw (go, done, receive_chunks) (rest ∙ one)
        ]
      ]

  -- What was hashed is what the file holds.
  receive_chunks-got :
      (expected : ℕ) (name : List ℕ) (chunks : List (Bool × List ℕ)) (complete : Bool)
      (got : List ℕ) (s : fs.Store)
      → fs.read s name ≡ some got
      → let k = receive_chunks fs sha opens dir expected name chunks complete got s in
        (k.status == 200) ≡ true → fs.read k.store name ≡ some k.got
  unfolding receive_chunks
  receive_chunks-got expected name [] complete got s e = λ h. e
  receive_chunks-got expected name ((cancel, bytes) ∷ chunks) complete got s e =
      let written = fs.write s name bytes in
      elim (Bool-cases (cancel || ltb expected (length got + length bytes))) [
        | inl stop ↦ rw (stop, receive_chunks) (λ h. absurd (ground (arith, h)))
        | inr go ↦ elim (Bool-cases written.0) [
          | inr failed ↦ rw (go, failed, receive_chunks) (λ h. absurd (ground (arith, h)))
          | inl done ↦
              rw (go, done, receive_chunks)
                (receive_chunks-got expected name chunks complete (got ++ bytes) written.1
                  (laws.write_end s name bytes got done e))
        ]
      ]

  http_get-other :
      (expected : ℕ) (name x : List ℕ) (r : Response) (s : fs.Store)
      → Apart x name
      → fs.read (http_get fs sha opens dir expected name r s).store x ≡ fs.read s x
  unfolding http_get
  http_get-other expected name x r s h = elim (Bool-cases (r.status == 200)) [
    | inl e ↦ rw (e, http_get) (receive_chunks-other expected name x r.chunks r.complete [] s h)
    | inr e ↦ rw (e, http_get) refl
  ]

  http_get-got :
      (expected : ℕ) (name : List ℕ) (r : Response) (s : fs.Store)
      → fs.read s name ≡ some []
      → let k = http_get fs sha opens dir expected name r s in
        (k.status == 200) ≡ true → fs.read k.store name ≡ some k.got
  unfolding http_get
  http_get-got expected name r s e = elim (Bool-cases (r.status == 200)) [
    | inl ok ↦ rw (ok, http_get) (receive_chunks-got expected name r.chunks r.complete [] s e)
    | inr failed ↦ rw (failed, http_get) (λ h. absurd (ground (arith, h)))
  ]

  -- What the file's part of the request leaves.
  abbrev sunk_of : PackageFile → Response → fs.Store → Sunk fs
  sunk_of f r s =
      if ltb 0 f.size
      then http_get fs sha opens dir f.size (new_name fs dir f.path) r s
      else record { status = 200; write_failed = false; got = []; store = s }

  sunk_of-other :
      (f : PackageFile) (r : Response) (x : List ℕ) (s : fs.Store)
      → Apart x (new_name fs dir f.path)
      → fs.read (sunk_of f r s).store x ≡ fs.read s x
  sunk_of-other f r x s h = elim (Bool-cases (ltb 0 f.size)) [
    | inl e ↦ rw e (http_get-other f.size (new_name fs dir f.path) x r s h)
    | inr e ↦ rw e refl
  ]

  sunk_of-got :
      (f : PackageFile) (r : Response) (s : fs.Store)
      → fs.read s (new_name fs dir f.path) ≡ some []
      → ((sunk_of f r s).status == 200) ≡ true
      → fs.read (sunk_of f r s).store (new_name fs dir f.path) ≡ some (sunk_of f r s).got
  sunk_of-got f r s e = elim (Bool-cases (ltb 0 f.size)) [
    | inl more ↦ rw more (http_get-got f.size (new_name fs dir f.path) r s e)
    | inr empty ↦ rw empty (λ h. e)
  ]

  download_file-other :
      (f : PackageFile) (r : Response) (x : List ℕ) (s : fs.Store)
      → Apart x (new_name fs dir f.path)
      → fs.read (download_file fs sha opens dir f r s).1 x ≡ fs.read s x
  unfolding download_file
  download_file-other f r x s h =
      let created = fs.create s (new_name fs dir f.path) in
      let one = laws.create_other s (new_name fs dir f.path) x h in
      elim (Bool-cases created.0) [
        | inr failed ↦ rw (failed, download_file) one
        | inl done ↦ rw (done, download_file) (sunk_of-other f r x created.1 h ∙ one)
      ]

  -- A file that has come is the one that the manifest lists.
  download_file-IsGenuine :
      (f : PackageFile) (r : Response) (s : fs.Store)
      → (download_file fs sha opens dir f r s).0 ≡ true
      → IsGenuine f (new_name fs dir f.path) (download_file fs sha opens dir f r s).1
  unfolding download_file
  download_file-IsGenuine f r s =
      let name = new_name fs dir f.path in
      let created = fs.create s name in
      elim (Bool-cases created.0) [
        | inr failed ↦ rw (failed, download_file) (λ h. absurd (ground (arith, h)))
        | inl done ↦
            rw (done, download_file)
              (λ h.
                (let k = sunk_of f r created.1 in
                  let held =
                    sunk_of-got f r created.1 (laws.create_new s name done) (ground (arith, h)) in
                  (
                    k.got,
                    held,
                    ground (arith, h),
                    bytes_eq→eq (sha k.got) f.sha256 (ground (arith, h)),
                  )))
      ]

  -- Every file that was to be fetched has come.
  abbrev pub AllFetched : List PackageFile → fs.Store → Type 0
  AllFetched [] s = Unit
  AllFetched (f ∷ files) s =
      (f.download ≡ true → IsGenuine f (new_name fs dir f.path) s) × AllFetched files s

  -- The three ways of a round.
  by_round :
      (P : Bool × fs.Store → Type 0) (wanted done : Bool) {skip go stop : Bool × fs.Store}
      → (wanted ≡ false → P skip)
      → (wanted ≡ true → done ≡ true → P go)
      → (wanted ≡ true → done ≡ false → P stop)
      → P (if not wanted then skip else if done then go else stop)
  by_round P false done a b c = a refl
  by_round P true true a b c = b refl refl
  by_round P true false a b c = c refl refl

  pub download_files-other :
      (web : List ℕ → Response) (files : List PackageFile) (x : List ℕ) (s : fs.Store)
      → NotNewOf files x
      → fs.read (download_files fs sha opens dir web files s).1 x ≡ fs.read s x
  unfolding download_files
  download_files-other web [] x s h = refl
  download_files-other web (f ∷ files) x s h =
      let one = download_file fs sha opens dir f (web f.path) s in
      let first = download_file-other f (web f.path) x s h.0 in
      by_round (λ (r : Bool × fs.Store). fs.read r.1 x ≡ fs.read s x) f.download one.0
        (λ skipped. download_files-other web files x s h.1)
        (λ wanted done. download_files-other web files x one.1 h.1 ∙ first) (λ wanted failed. first)

  name-NotNewOf :
      (files : List PackageFile) (p : List ℕ)
      → ApartFromAll fs laws dir p files
      → NotNewOf files (new_name fs dir p)
  name-NotNewOf [] p k = tt
  name-NotNewOf (f ∷ files) p k = (k.0 fetched fetched tt tt, name-NotNewOf files p k.1)

  pub download_files-AllFetched :
      (web : List ℕ → Response) (files : List PackageFile) (s : fs.Store)
      → Separate fs laws dir files
      → (download_files fs sha opens dir web files s).0 ≡ true
      → AllFetched files (download_files fs sha opens dir web files s).1
  unfolding download_files
  download_files-AllFetched web [] s v = λ h. tt
  download_files-AllFetched web (f ∷ files) s (own, cross, rest) =
      let one = download_file fs sha opens dir f (web f.path) s in
      by_round (λ (r : Bool × fs.Store). r.0 ≡ true → AllFetched (f ∷ files) r.1) f.download one.0
        (λ skipped h. (
          (λ w. absurd (ground (arith, skipped, w))),
          download_files-AllFetched web files s rest h,
        ))
        (λ wanted done h. (
          (λ w.
              (let (bytes, held, size, hash) = download_file-IsGenuine f (web f.path) s done in
                (
                  bytes,
                  download_files-other web files (new_name fs dir f.path) one.1
                        (name-NotNewOf files f.path cross)
                      ∙ held,
                  size,
                  hash,
                ))),
          download_files-AllFetched web files one.1 rest h,
        ))
        (λ wanted failed h. absurd (ground (arith, h)))

  delete_old-other :
      (rounds n : ℕ) (path x : List ℕ) (s : fs.Store)
      → n + rounds ≤ 10
      → NotOld fs laws dir path x
      → fs.read (delete_old fs sha opens dir rounds n path s) x ≡ fs.read s x
  unfolding delete_old
  delete_old-other zero n path x s h k = refl
  delete_old-other (suc rounds) n path x s h k =
      delete_old-other rounds (n + 1) path x (fs.delete s (old_file_path dir path n)) (omega arith)
        k
      ∙ laws.delete_other s (old_file_path dir path n) x (k n (omega arith))

  pub delete_old_files-other :
      (files : List PackageFile) (x : List ℕ) (s : fs.Store)
      → NotOldOf fs laws dir files x
      → fs.read (delete_old_files fs sha opens dir files s) x ≡ fs.read s x
  unfolding delete_old_files
  delete_old_files-other [] x s k = refl
  delete_old_files-other (f ∷ files) x s k =
      delete_old_files-other files x (delete_old fs sha opens dir 9 1 f.path s) k.1
      ∙ delete_old-other 9 1 f.path x s (omega arith) k.0

  pub delete_new_files-other :
      (files : List PackageFile) (x : List ℕ) (s : fs.Store)
      → NotNewOf files x
      → fs.read (delete_new_files fs sha opens dir files s) x ≡ fs.read s x
  unfolding delete_new_files
  delete_new_files-other [] x s k = refl
  delete_new_files-other (f ∷ files) x s k =
      delete_new_files-other files x (fs.delete s (new_name fs dir f.path)) k.1
      ∙ laws.delete_other s (new_name fs dir f.path) x k.0
