-- ===== src/Utils/Size/LineEnd.antt =====
-- A size that ends in a line end: the pattern of `validate_disk_size` lets it pass.
use mathlib.Core.List.{append_assoc}
use docker_vm_runner.Base.{
  ℕ, Text, IsDigit, Bool, true, false, ◌≡◌, refl, sym, ap, ◌∙◌, ◌≢◌, ◌⊎◌, inl, inr, [], ◌∷◌, ◌++◌,
  All, arith, parse_int_unit_line, ok, err, Error,
}
use docker_vm_runner.Utils.Size.{
  is_size_suffix, matches_size, validate_disk_size, parse_size_to_bytes, int_of,
}
use docker_vm_runner.Utils.Size.Laws.{suffix-alpha, parse_size-plain}

matches_size-unit_line :
    (seen : Bool) (s : Text) (u : ℕ)
    → All IsDigit s
    → (seen ≡ true) ⊎ (s ≢ [])
    → is_size_suffix u ≡ true
    → matches_size seen (s ++ (u ∷ 10 ∷ [])) ≡ true
unfolding matches_size
matches_size-unit_line seen [] u h (inl e) w = ground arith
matches_size-unit_line seen [] u h (inr n) w = absurd (n refl)
matches_size-unit_line seen (c ∷ s) u (d, h) _ w =
    rw d (matches_size-unit_line true s u h (inl refl) w)

-- `$` also matches before a line end. So digits, a unit and a line end pass `validate_disk_size`,
-- and `parse_size_to_bytes` raises a `ValueError` on them that is no `ManagerError`.
pub parse_size_to_bytes_line_end :
    (c : ℕ) (s : Text) (u : ℕ)
    → All IsDigit (c ∷ s)
    → is_size_suffix u ≡ true
    → let raw = c ∷ s ++ (u ∷ 10 ∷ []) in
      (validate_disk_size raw ≡ ok raw) × (parse_size_to_bytes raw ≡ err Error.value_error)
unfolding validate_disk_size
parse_size_to_bytes_line_end c s u h w = (
  rw (matches_size-unit_line false (c ∷ s) u h (inr (λ e. cc)) w),
  ap parse_size_to_bytes (sym (append_assoc (c ∷ s) (u ∷ []) (10 ∷ [])))
      ∙ parse_size-plain ((c ∷ s) ++ (u ∷ [])) 10 refl
      ∙ ap int_of (append_assoc (c ∷ s) (u ∷ []) (10 ∷ []))
      ∙ rw (parse_int_unit_line c s u h (suffix-alpha u w), int_of),
)
