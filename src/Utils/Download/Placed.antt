-- ===== src/Utils/Download/Placed.antt =====
-- A download that returns has put a complete file in its place.
use docker_vm_runner.Base.{
  ℕ, zero, suc, ◌+◌, nat_beq, Bool, true, false, Bool-cases, inl, inr, Text, is_empty, parse_int,
  Option, none, some, List, ◌∷◌, ◌≡◌, ◌≢◌, nat_beq_iff, refl, sym, ap, ◌∙◌, subst, Result, ok, err,
  Error, if◌then◌else◌,
}
use docker_vm_runner.Effects.{
  Action, open_url, make_temp, read_chunk, append_chunk, move_file, sleep, Done, Outside, World,
  Eff, pure, throw, ◌>>=◌, ◌>>◌, or_else, try_except, perform,
}
use docker_vm_runner.Effects.Outcomes.{
  Gives, Gives->>=, Gives->>, Gives-throw, Gives-try_except, seq-eq-ok,
}
use docker_vm_runner.Utils.Download.{
  not_opened, number_or_error, check_length, copy_chunks, discard, remove_and_raise, fill,
  download_file, delay_of, and_retry, attempts, download_file_with_retry,
}

module _ (o : Outside) (url destination temp : Text) where
  -- The calls of a download so far, the latest first: the address was opened, a temporary file made
  -- beside the destination, and every chunk that was read was appended to it, in order.
  pub data Copied : List Action → Type 0 where
    made :
        (total : Option Text) (log : List Action)
        → o (open_url url) log ≡ ok total
        → o (make_temp destination) (open_url url ∷ log) ≡ ok temp
        → Copied (make_temp destination ∷ open_url url ∷ log)
    appended :
        (size : ℕ) (log : List Action)
        → Copied log
        → o read_chunk log ≡ ok size
        → size ≢ 0
        → o (append_chunk temp size) (read_chunk ∷ log) ≡ ok tt
        → Copied (append_chunk temp size ∷ read_chunk ∷ log)

  -- The last chunk was empty: nothing is left to read.
  pub data Complete : List Action → Type 0 where
    ended : (log : List Action) → Copied log → o read_chunk log ≡ ok 0 → Complete (read_chunk ∷ log)

  -- The last call moved the complete file to the destination.
  pub data Moved : List Action → Type 0 where
    moved :
        (log : List Action)
        → Complete log
        → o (move_file temp destination) log ≡ ok tt
        → Moved (move_file temp destination ∷ log)

module _ (S : Type 0) (chunks : ℕ) (url destination : Text) where
  Placed : Outside → World S → Type 0
  Placed o w = (temp : Text) × Moved o url destination temp w.log

  Copying : Text → Outside → World S → Type 0
  Copying temp o w = Copied o url destination temp w.log

  Filled : Text → Outside → World S → Type 0
  Filled temp o w = Complete o url destination temp w.log

  -- One chunk is read.
  chunk_step : Text → ℕ → ℕ → Eff S Done
  chunk_step temp rounds size =
      if nat_beq size 0
      then pure tt
      else (perform (append_chunk temp size) >> copy_chunks rounds temp)

  abbrev with_read : World S → World S
  with_read w = record w { log = read_chunk ∷ w.log }

  FillsFrom : ℕ → Text → Outside → Type 0
  FillsFrom rounds temp o =
      (w : World S)
      → Copying temp o w
      → (copy_chunks rounds temp o w).0 ≡ ok tt
      → Filled temp o (copy_chunks rounds temp o w).1

  appended-Filled :
      (rounds : ℕ) (temp : Text) (size : ℕ) (o : Outside) (w : World S)
      → FillsFrom rounds temp o
      → Copying temp o w
      → o read_chunk w.log ≡ ok size
      → size ≢ 0
      → ((perform (append_chunk temp size) >> copy_chunks rounds temp) o (with_read w)).0 ≡ ok tt
      → Filled temp o
          ((perform (append_chunk temp size) >> copy_chunks rounds temp) o (with_read w)).1
  unfolding ◌>>◌ FillsFrom Copying perform
  appended-Filled rounds temp size o w rest h got more e =
      let (done, put, same) =
        seq-eq-ok (perform (append_chunk temp size)) (λ done. copy_chunks rounds temp) o
          (with_read w) tt e in
      subst (λ r. Filled temp o r.1) (sym same)
        (rest _ (appended size w.log h got more put) (ap (λ r. r.0) (sym same) ∙ e))

  chunk_step-Filled :
      (rounds : ℕ) (temp : Text) (size : ℕ) (o : Outside) (w : World S)
      → FillsFrom rounds temp o
      → Copying temp o w
      → o read_chunk w.log ≡ ok size
      → (chunk_step temp rounds size o (with_read w)).0 ≡ ok tt
      → Filled temp o (chunk_step temp rounds size o (with_read w)).1
  unfolding chunk_step pure Filled Copying
  chunk_step-Filled rounds temp size o w rest h got e = elim (Bool-cases (nat_beq size 0)) [
    | inl z ↦ rw z (ended w.log h (got ∙ ap ok ((nat_beq_iff size 0).0 z)))
    | inr n ↦ rw n (
        appended-Filled rounds temp size o w rest h got (λ z. cc (n, (nat_beq_iff size 0).1 z))
          (rw n at e))
  ]

  copy_chunks-Filled : (rounds : ℕ) (temp : Text) (o : Outside) → FillsFrom rounds temp o
  unfolding copy_chunks throw FillsFrom perform chunk_step
  copy_chunks-Filled zero temp o w h e = cc
  copy_chunks-Filled (suc rounds) temp o w h e =
      let (size, got, same) = seq-eq-ok (perform read_chunk) (chunk_step temp rounds) o w tt e in
      subst (λ r. Filled temp o r.1) (sym same)
        (chunk_step-Filled rounds temp size o w (copy_chunks-Filled rounds temp o) h got
          (ap (λ r. r.0) (sym same) ∙ e))

  fill-Placed :
      (temp : Text) (o : Outside) (w : World S)
      → Copying temp o w
      → (fill chunks temp destination o w).0 ≡ ok tt
      → Placed o (fill chunks temp destination o w).1
  unfolding fill ◌>>◌ FillsFrom Filled Placed perform
  fill-Placed temp o w h e =
      let (done, copied, same) =
        seq-eq-ok (copy_chunks chunks temp) (λ done. perform (move_file temp destination)) o w tt
          e in
      let full = copy_chunks-Filled chunks temp o w h copied in
      subst (λ r. Placed o r.1) (sym same) (temp, moved _ full (ap (λ r. r.0) (sym same) ∙ e))

  Nothing : Outside → World S → Type 0
  Nothing o w = ⊥

  -- An error stays an error.
  remove_and_raise-Nothing : (temp : Text) (x : Error) → Gives Nothing (remove_and_raise temp x)
  unfolding remove_and_raise
  remove_and_raise-Nothing temp x =
      Gives->>= Nothing _ _ (λ there. Gives->> Nothing _ _ (Gives-throw Nothing Done x))

  discard-Nothing : (temp : Text) (x : Error) → Gives Nothing (discard temp x)
  discard-Nothing temp Error.interrupted = Gives-throw Nothing Done _
  discard-Nothing temp x = remove_and_raise-Nothing temp x

  caught-Placed :
      (temp : Text) (o : Outside) (r : Result Done × World S)
      → (r.0 ≡ ok tt → Placed o r.1)
      → (or_else (discard temp) o r).0 ≡ ok tt
      → Placed o (or_else (discard temp) o r).1
  unfolding Gives Nothing
  caught-Placed temp o (ok done, w) k e = k e
  caught-Placed temp o (err x, w) k e = absurd (discard-Nothing temp x o w tt e)

  kept-Placed :
      (temp : Text) (o : Outside) (w : World S)
      → Copying temp o w
      → (try_except (fill chunks temp destination) (discard temp) o w).0 ≡ ok tt
      → Placed o (try_except (fill chunks temp destination) (discard temp) o w).1
  unfolding try_except
  kept-Placed temp o w h e =
      caught-Placed temp o (fill chunks temp destination o w) (fill-Placed temp o w h) e

  not_opened-Nothing : (x : Error) → Gives Nothing (not_opened url x)
  not_opened-Nothing Error.url_error = Gives-throw Nothing (Option Text) _
  not_opened-Nothing x = Gives-throw Nothing (Option Text) x

  -- The address was opened.
  opened :
      (o : Outside) (r : Result (Option Text)) (w : World S) (total : Option Text)
      → (or_else (not_opened url) o (r, w)).0 ≡ ok total
      → (r ≡ ok total) × ((or_else (not_opened url) o (r, w)).1 ≡ w)
  unfolding Gives Nothing
  opened o (ok t) w total e = (e, refl)
  opened o (err x) w total e = absurd (not_opened-Nothing x o w total e)

  check_length-same :
      (total : Option Text) (o : Outside) (w : World S) → (check_length total o w).1 ≡ w
  unfolding pure throw
  check_length-same none o w = refl
  check_length-same (some total) o w = by_test (is_empty total) (parse_int total)
    where
      by_test :
          {A : Type 0} (b : Bool) (n : Option A)
          → ((if b then pure tt else number_or_error n) o w).1 ≡ w
      by_test true n = refl
      by_test false none = refl
      by_test false (some n) = refl

  from_temp : Text → Eff S Done
  from_temp temp = try_except (fill chunks temp destination) (discard temp)

  from_length : Option Text → Eff S Done
  from_length total = check_length total >> (perform (make_temp destination) >>= from_temp)

  from_temp-Placed :
      (o : Outside) (total : Option Text) (log : List Action) (w : World S)
      → w.log ≡ open_url url ∷ log
      → o (open_url url) log ≡ ok total
      → ((perform (make_temp destination) >>= from_temp) o w).0 ≡ ok tt
      → Placed o ((perform (make_temp destination) >>= from_temp) o w).1
  unfolding from_temp Copying perform
  from_temp-Placed o total log w q opening e =
      let (temp, making, same) = seq-eq-ok (perform (make_temp destination)) from_temp o w tt e in
      subst (λ r. Placed o r.1) (sym same)
        (kept-Placed temp o (perform (make_temp destination) o w).1
          (subst (λ l. Copied o url destination temp (make_temp destination ∷ l)) (sym q)
            (made total log opening (subst (λ l. o (make_temp destination) l ≡ ok temp) q making)))
          (ap (λ r. r.0) (sym same) ∙ e))

  from_length-Placed :
      (o : Outside) (total : Option Text) (log : List Action) (w : World S)
      → w.log ≡ open_url url ∷ log
      → o (open_url url) log ≡ ok total
      → (from_length total o w).0 ≡ ok tt
      → Placed o (from_length total o w).1
  unfolding from_length ◌>>◌
  from_length-Placed o total log w q opening e =
      let (done, checked, same) =
        seq-eq-ok (check_length total) (λ done. perform (make_temp destination) >>= from_temp) o w
          tt e in
      subst (λ r. Placed o r.1) (sym same)
        (from_temp-Placed o total log (check_length total o w).1
          (ap (λ v. v.log) (check_length-same total o w) ∙ q) opening
          (ap (λ r. r.0) (sym same) ∙ e))

  download-Placed : Gives Placed (download_file chunks url destination)
  unfolding download_file Gives from_length from_temp try_except perform
  download-Placed o w tt e =
      let (total, opening, same) =
        seq-eq-ok (try_except (perform (open_url url)) (not_opened url)) from_length o w tt e in
      let (answer, there) =
        opened o (o (open_url url) w.log) (record w { log = open_url url ∷ w.log }) total opening in
      subst (λ r. Placed o r.1) (sym same)
        (from_length-Placed o total w.log _ (ap (λ v. v.log) there) answer
          (ap (λ r. r.0) (sym same) ∙ e))

  and_retry-Placed :
      (left : ℕ) (rest : Eff S Done) (x : Error)
      → ((n : ℕ) → left ≡ suc n → Gives Placed rest)
      → Gives Placed (and_retry left rest x)
  and_retry-Placed zero rest x k = Gives-throw Placed Done x
  and_retry-Placed (suc left) rest (Error.manager reason) k = k left refl
  and_retry-Placed (suc left) rest x k = Gives-throw Placed Done x

  attempts-Placed :
      (left attempt : ℕ) → Gives Placed (attempts chunks url destination (suc left) attempt)
  unfolding attempts
  attempts-Placed zero attempt = Gives-try_except Placed _ _ download-Placed (λ x.
      and_retry-Placed zero
        (perform (sleep (delay_of attempt)) >> attempts chunks url destination zero (attempt + 1)) x
        (λ n e. cc))
  attempts-Placed (suc left) attempt = Gives-try_except Placed _ _ download-Placed (λ x.
      and_retry-Placed (suc left) _ x
        (λ n e. Gives->> Placed _ _ (attempts-Placed left (attempt + 1))))

  -- When a download with at least one attempt returns, its last attempt opened the address, appended
  -- every chunk that it read to a temporary file until a chunk was empty, and then moved that file
  -- to the destination, whatever happened to the attempts before.
  pub download_file_with_retry_places :
      (retries : ℕ) (o : Outside) (w : World S)
      → (download_file_with_retry chunks url destination (suc retries) o w).0 ≡ ok tt
      → (temp : Text) × Moved o url destination temp
          (download_file_with_retry chunks url destination (suc retries) o w).1.log
  unfolding download_file_with_retry Gives Placed
  download_file_with_retry_places retries o w e = attempts-Placed retries 1 o w tt e
