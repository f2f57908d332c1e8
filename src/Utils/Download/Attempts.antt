-- ===== src/Utils/Download/Attempts.antt =====
-- How often an address is opened.
use docker_vm_runner.Base.{
  ℕ, zero, suc, ◌+◌, ◌≤◌, arith, nat_beq, Text, is_empty, parse_int, Bool, true, false, Option,
  none, some, List, [], ◌∷◌, Result, ok, err, Error, if◌then◌else◌,
}
use docker_vm_runner.Effects.{
  Action, exists, unlink, open_url, make_temp, read_chunk, append_chunk, move_file, sleep, Done,
  Outside, World, Eff, pure, throw, ◌>>=◌, ◌>>◌, and_then, or_else, try_except, perform,
}
use docker_vm_runner.Utils.Download.{
  not_opened, number_or_error, check_length, copy_chunks, ignore_absent, discard, remove_and_raise,
  fill, download_file, and_retry, attempts, download_file_with_retry,
}

abbrev pub opens : List Action → ℕ
opens [] = 0
opens (open_url url ∷ log) = suc (opens log)
opens (_ ∷ log) = opens log

module _ (S : Type 0) where
  -- The program opens addresses at most so often.
  Within : {A : Type 0} → ℕ → Eff S A → Type 0
  Within n run = (o : Outside) (w : World S) → opens (run o w).1.log ≤ opens w.log + n

  pure-Within : {A : Type 0} (a : A) → Within 0 (pure a)
  unfolding Within pure
  pure-Within a o w = omega arith

  throw-Within : (A : Type 0) (x : Error) → Within {A = A} 0 (throw x)
  unfolding Within throw
  throw-Within A x o w = omega arith

  next-Within :
      {A B : Type 0} (m n : ℕ) (next : A → Eff S B) (o : Outside) (r : Result A × World S)
      (before : ℕ)
      → opens r.1.log ≤ before + m
      → ((a : A) → Within n (next a))
      → opens (and_then next o r).1.log ≤ before + (m + n)
  unfolding Within
  next-Within m n next o (ok a, w) before h k = omega (arith, h, k a o w)
  next-Within m n next o (err x, w) before h k = omega (arith, h)

  seq-Within :
      {A B : Type 0} (m n : ℕ) (run : Eff S A) (next : A → Eff S B)
      → Within m run
      → ((a : A) → Within n (next a))
      → Within (m + n) (run >>= next)
  unfolding Within ◌>>=◌
  seq-Within m n run next h k o w = next-Within m n next o (run o w) (opens w.log) (h o w) k

  then-Within :
      {A B : Type 0} (m n : ℕ) (run : Eff S A) (rest : Eff S B)
      → Within m run
      → Within n rest
      → Within (m + n) (run >> rest)
  unfolding ◌>>◌
  then-Within m n run rest h k = seq-Within m n run (λ done. rest) h (λ done. k)

  caught-Within :
      {A : Type 0} (m n : ℕ) (handler : Error → Eff S A) (o : Outside) (r : Result A × World S)
      (before : ℕ)
      → opens r.1.log ≤ before + m
      → ((x : Error) → Within n (handler x))
      → opens (or_else handler o r).1.log ≤ before + (m + n)
  unfolding Within
  caught-Within m n handler o (ok a, w) before h k = omega (arith, h)
  caught-Within m n handler o (err x, w) before h k = omega (arith, h, k x o w)

  try-Within :
      {A : Type 0} (m n : ℕ) (run : Eff S A) (handler : Error → Eff S A)
      → Within m run
      → ((x : Error) → Within n (handler x))
      → Within (m + n) (try_except run handler)
  unfolding Within try_except
  try-Within m n run handler h k o w = caught-Within m n handler o (run o w) (opens w.log) (h o w) k

  if-Within :
      {A : Type 0} (n : ℕ) (b : Bool) (run other : Eff S A)
      → Within n run
      → Within n other
      → Within n (if b then run else other)
  if-Within n true run other h k = h
  if-Within n false run other h k = k

  opening-Within : (url : Text) → Within 1 (perform (open_url url))
  unfolding Within perform
  opening-Within url o w = omega arith

  not_opened-Within : (url : Text) (x : Error) → Within 0 (not_opened url x)
  not_opened-Within url Error.url_error = throw-Within (Option Text) _
  not_opened-Within url x = throw-Within (Option Text) x

  length-Within : (total : Option Text) → Within 0 (check_length total)
  length-Within none = pure-Within tt
  length-Within (some total) =
      if-Within 0 (is_empty total) _ _ (pure-Within tt) (number (parse_int total))
    where
      number : {A : Type 0} (n : Option A) → Within 0 (number_or_error n)
      number none = throw-Within Done _
      number (some n) = pure-Within tt

  exists-Within : (path : Text) → Within 0 (perform (exists path))
  unfolding Within perform
  exists-Within path o w = omega arith

  unlink-Within : (path : Text) → Within 0 (perform (unlink path))
  unfolding Within perform
  unlink-Within path o w = omega arith

  make_temp-Within : (path : Text) → Within 0 (perform (make_temp path))
  unfolding Within perform
  make_temp-Within path o w = omega arith

  read_chunk-Within : Within 0 (perform read_chunk)
  unfolding Within perform
  read_chunk-Within o w = omega arith

  append_chunk-Within : (path : Text) (size : ℕ) → Within 0 (perform (append_chunk path size))
  unfolding Within perform
  append_chunk-Within path size o w = omega arith

  move_file-Within : (temp path : Text) → Within 0 (perform (move_file temp path))
  unfolding Within perform
  move_file-Within temp path o w = omega arith

  sleep-Within : (time : ℕ) → Within 0 (perform (sleep time))
  unfolding Within perform
  sleep-Within time o w = omega arith

  copy_chunks-Within : (chunks : ℕ) (temp : Text) → Within 0 (copy_chunks chunks temp)
  unfolding copy_chunks
  copy_chunks-Within zero temp = throw-Within Done _
  copy_chunks-Within (suc chunks) temp = seq-Within 0 0 _ _ read_chunk-Within (λ size.
      if-Within 0 (nat_beq size 0) _ _ (pure-Within tt)
        (then-Within 0 0 _ _ (append_chunk-Within temp size) (copy_chunks-Within chunks temp)))

  ignore_absent-Within : (x : Error) → Within 0 (ignore_absent x)
  ignore_absent-Within Error.not_found_error = pure-Within tt
  ignore_absent-Within x = throw-Within Done x

  remove_and_raise-Within : (temp : Text) (x : Error) → Within 0 (remove_and_raise temp x)
  unfolding remove_and_raise
  remove_and_raise-Within temp x = seq-Within 0 0 _ _ (exists-Within temp) (λ there.
      then-Within 0 0 _ _
        (if-Within 0 there _ _ (try-Within 0 0 _ _ (unlink-Within temp) ignore_absent-Within)
          (pure-Within tt))
        (throw-Within Done x))

  discard-Within : (temp : Text) (x : Error) → Within 0 (discard temp x)
  discard-Within temp Error.interrupted = throw-Within Done Error.interrupted
  discard-Within temp x = remove_and_raise-Within temp x

  fill-Within : (chunks : ℕ) (temp destination : Text) → Within 0 (fill chunks temp destination)
  unfolding fill
  fill-Within chunks temp destination =
      then-Within 0 0 _ _ (copy_chunks-Within chunks temp) (move_file-Within temp destination)

  download-Within :
      (chunks : ℕ) (url destination : Text) → Within 1 (download_file chunks url destination)
  unfolding download_file
  download-Within chunks url destination =
      seq-Within 1 0 _ _ (try-Within 1 0 _ _ (opening-Within url) (not_opened-Within url)) (λ total.
        then-Within 0 0 _ _ (length-Within total) (
          seq-Within 0 0 _ _ (make_temp-Within destination) (λ temp.
            try-Within 0 0 _ _ (fill-Within chunks temp destination) (discard-Within temp))))

  weaker-Within : {A : Type 0} (m n : ℕ) (run : Eff S A) → m ≤ n → Within m run → Within n run
  unfolding Within
  weaker-Within m n run k h o w = omega (arith, k, h o w)

  and_retry-Within :
      (left n : ℕ) (rest : Eff S Done) (x : Error)
      → Within n rest
      → Within n (and_retry left rest x)
  and_retry-Within zero n rest x h = weaker-Within 0 n _ (omega arith) (throw-Within Done x)
  and_retry-Within (suc left) n rest (Error.manager reason) h = h
  and_retry-Within (suc left) n rest x h = weaker-Within 0 n _ (omega arith) (throw-Within Done x)

  attempts-Within :
      (chunks : ℕ) (url destination : Text) (left attempt : ℕ)
      → Within left (attempts chunks url destination left attempt)
  unfolding attempts
  attempts-Within chunks url destination zero attempt = pure-Within tt
  attempts-Within chunks url destination (suc left) attempt =
      weaker-Within (1 + left) (suc left) _ (omega arith) (
        try-Within 1 left _ _ (download-Within chunks url destination) (λ x.
          and_retry-Within left left _ x (
            weaker-Within (0 + left) left _ (omega arith) (
              then-Within 0 left _ _ (sleep-Within _)
                (attempts-Within chunks url destination left (attempt + 1))))))

  -- However the downloads fail, an address is opened at most as often as `retries` says.
  pub download_file_with_retry_bound :
      (chunks : ℕ) (url destination : Text) (retries : ℕ) (o : Outside) (w : World S)
      → opens (download_file_with_retry chunks url destination retries o w).1.log
        ≤ opens w.log + retries
  unfolding download_file_with_retry Within
  download_file_with_retry_bound chunks url destination retries o w =
      attempts-Within chunks url destination retries 1 o w
