-- ===== src/Utils/Download.antt =====
-- app/utils.py: `download_file` and `download_file_with_retry`. The progress bar is not modelled.
pub mod Attempts
pub mod Placed
use docker_vm_runner.Base.{
  ℕ, zero, suc, ◌+◌, nat_beq, Text, is_empty, parse_int, Bool, Option, none, some, Result, ok, err,
  Error, Reason, if◌then◌else◌,
}
use docker_vm_runner.Effects.{
  exists, unlink, open_url, make_temp, read_chunk, append_chunk, move_file, sleep, Done, Eff, pure,
  throw, ◌>>=◌, ◌>>◌, try_except, perform,
}

-- An error of urllib becomes a `ManagerError`.
abbrev pub not_opened : {S : Type 0} → Text → Error → Eff S (Option Text)
not_opened url Error.url_error = throw (Error.manager (Reason.download_failed url))
not_opened url x = throw x

abbrev pub number_or_error : {S : Type 0} {A : Type 0} → Option A → Eff S Done
number_or_error none = throw Error.value_error
number_or_error (some n) = pure tt

-- `int(total) if total else None`
abbrev pub check_length : {S : Type 0} → Option Text → Eff S Done
check_length none = pure tt
check_length (some total) = if is_empty total then pure tt else number_or_error (parse_int total)

-- Until a chunk is empty; the number bounds the chunks.
unfoldable pub copy_chunks : {S : Type 0} → ℕ → Text → Eff S Done
copy_chunks zero temp = throw Error.out_of_fuel
copy_chunks (suc chunks) temp = do
  size ← perform read_chunk
  if nat_beq size 0 then pure tt else (perform (append_chunk temp size) >> copy_chunks chunks temp)

abbrev pub ignore_absent : {S : Type 0} → Error → Eff S Done
ignore_absent Error.not_found_error = pure tt
ignore_absent x = throw x

unfoldable pub remove_and_raise : {S : Type 0} → Text → Error → Eff S Done
remove_and_raise temp x = do
  there ← perform (exists temp)
  if there then try_except (perform (unlink temp)) ignore_absent else pure tt
  throw x

-- `except Exception`: what was written so far is removed, and the error raised again.
abbrev pub discard : {S : Type 0} → Text → Error → Eff S Done
discard temp Error.interrupted = throw Error.interrupted
discard temp x = remove_and_raise temp x

unfoldable pub fill : {S : Type 0} → ℕ → Text → Text → Eff S Done
fill chunks temp destination = copy_chunks chunks temp >> perform (move_file temp destination)

unfoldable pub download_file : {S : Type 0} → ℕ → Text → Text → Eff S Done
download_file chunks url destination = do
  total ← try_except (perform (open_url url)) (not_opened url)
  check_length total
  temp ← perform (make_temp destination)
  try_except (fill chunks temp destination) (discard temp)

-- `delays[min(attempt - 1, len(delays) - 1)]`, in milliseconds.
abbrev pub delay_of : ℕ → ℕ
delay_of zero = 5000
delay_of (suc zero) = 5000
delay_of (suc (suc zero)) = 10000
delay_of _ = 20000

-- After the last attempt a `ManagerError` is raised again; another error is raised at once.
abbrev pub and_retry : {S : Type 0} → ℕ → Eff S Done → Error → Eff S Done
and_retry zero rest x = throw x
and_retry (suc left) rest (Error.manager reason) = rest
and_retry (suc left) rest x = throw x

-- The attempts that are left, and the number of the next one.
unfoldable pub attempts : {S : Type 0} → ℕ → Text → Text → ℕ → ℕ → Eff S Done
attempts chunks url destination zero attempt = pure tt
attempts chunks url destination (suc left) attempt =
    let rest =
      perform (sleep (delay_of attempt)) >> attempts chunks url destination left (attempt + 1) in
    try_except (download_file chunks url destination) (and_retry left rest)

unfoldable pub download_file_with_retry : {S : Type 0} → ℕ → Text → Text → ℕ → Eff S Done
download_file_with_retry chunks url destination retries = attempts chunks url destination retries 1
