-- ===== src/LeakCheck/Program.antt =====
-- Programs that call malloc and free, and the blocks that they never free.
use linux_cpp_learn.Prelude.{
  ℕ, suc, ◌≡◌, refl, ap, sym, ◌∙◌, List, [], ◌∷◌, ◌++◌, append-nil, append_assoc, Bool, true, false,
  not, ◌&&◌, if◌then◌else◌, ◌==◌, arith, Bool-cases, inl, inr, update,
}
use linux_cpp_learn.LeakCheck.Files.{
  File, has, without, write_file, without-absent, has-write_file, has-without,
}

pub data Call (R : Type 0) : Type 0 where
  mallocs : R → Call R
  frees : ℕ → Call R

module _ {R : Type 0} where
  -- The addresses freed, the last one first.
  unfoldable pub released : List (Call R) → List ℕ → List ℕ
  released [] ps = ps
  released (mallocs r ∷ cs) ps = released cs ps
  released (frees q ∷ cs) ps = released cs (q ∷ ps)

  unfoldable pub count_mallocs : List (Call R) → ℕ
  count_mallocs [] = 0
  count_mallocs (mallocs r ∷ cs) = suc (count_mallocs cs)
  count_mallocs (frees q ∷ cs) = count_mallocs cs

module _ {A R : Type 0} (file : R → File A) where
  unfoldable pub freed_in : ℕ → List (Call R) → Bool
  freed_in p [] = false
  freed_in p (mallocs r ∷ cs) = freed_in p cs
  freed_in p (frees q ∷ cs) = if q == p then true else freed_in p cs

  -- The blocks that no later call frees, the first one first.
  unfoldable pub leaked : List (Call R) → List (File A)
  unfolding freed_in
  leaked [] = []
  leaked (mallocs r ∷ cs) = if freed_in (file r).name cs then leaked cs else file r ∷ leaked cs
  leaked (frees q ∷ cs) = leaked cs

  -- malloc never gives an address that is in use, and what is freed is in use; `used` says which
  -- addresses are at the start.
  unfoldable pub is_fair : (ℕ → Bool) → List (Call R) → Bool
  is_fair used [] = true
  is_fair used (mallocs r ∷ cs) =
      not (used (file r).name) && is_fair (update used (file r).name true) cs
  is_fair used (frees q ∷ cs) = used q && is_fair (update used q false) cs

  -- The directory after the calls, if each has its effect.
  unfoldable pub files_after : List (File A) → List (Call R) → List (File A)
  unfolding write_file without
  files_after fs [] = fs
  files_after fs (mallocs r ∷ cs) = files_after (write_file (file r) fs) cs
  files_after fs (frees q ∷ cs) = files_after (without q fs) cs

  -- The files of the blocks that the calls do not free.
  unfoldable pub kept : List (Call R) → List (File A) → List (File A)
  unfolding freed_in
  kept cs [] = []
  kept cs (f ∷ fs) = if freed_in f.name cs then kept cs fs else f ∷ kept cs fs

  kept-++ :
      (cs : List (Call R)) (fs gs : List (File A)) → kept cs (fs ++ gs) ≡ kept cs fs ++ kept cs gs
  unfolding kept
  kept-++ cs [] gs = refl
  kept-++ cs (f ∷ fs) gs = ground (arith, kept-++ cs fs gs)

  kept-mallocs :
      (r : R) (cs : List (Call R)) (fs : List (File A)) → kept (mallocs r ∷ cs) fs ≡ kept cs fs
  unfolding kept freed_in
  kept-mallocs r cs [] = refl
  kept-mallocs r cs (f ∷ fs) = ground (arith, kept-mallocs r cs fs)

  kept-frees :
      (q : ℕ) (cs : List (Call R)) (fs : List (File A))
      → kept cs (without q fs) ≡ kept (frees q ∷ cs) fs
  unfolding kept freed_in without
  kept-frees q cs [] = refl
  kept-frees q cs (f ∷ fs) = ground (arith, kept-frees q cs fs)

  kept-none : (fs : List (File A)) → kept [] fs ≡ fs
  unfolding kept freed_in
  kept-none [] = refl
  kept-none (f ∷ fs) = ap (λ gs. f ∷ gs) (kept-none fs)

  -- `used` says of which addresses there are files.
  unfoldable pub Uses : (ℕ → Bool) → List (File A) → Type 0
  Uses used fs = (p : ℕ) → used p ≡ has p fs

  pub Uses-write_file :
      (used : ℕ → Bool) (fs : List (File A)) (r : R)
      → Uses used fs
      → Uses (update used (file r).name true) (write_file (file r) fs)
  unfolding Uses
  Uses-write_file used fs r u p = ground (arith, u p, has-write_file p (file r) fs)

  pub Uses-without :
      (used : ℕ → Bool) (fs : List (File A)) (q : ℕ)
      → Uses used fs
      → Uses (update used q false) (without q fs)
  unfolding Uses
  Uses-without used fs q u p = ground (arith, u p, has-without p q fs)

  pub files_after-leaked :
      (used : ℕ → Bool) (fs : List (File A)) (cs : List (Call R))
      → is_fair used cs ≡ true
      → Uses used fs
      → files_after fs cs ≡ kept cs fs ++ leaked cs
  unfolding files_after leaked is_fair Uses write_file kept
  files_after-leaked used fs [] e u = sym (kept-none fs) ∙ sym (append-nil (kept [] fs))
  files_after-leaked used fs (mallocs r ∷ cs) e u =
      let absent : has (file r).name fs ≡ false = ground (arith, e, u (file r).name) in
      let fair : is_fair (update used (file r).name true) cs ≡ true = ground (arith, e) in
      let ih =
        files_after-leaked (update used (file r).name true) (write_file (file r) fs) cs fair
          (Uses-write_file used fs r u) in
      let one = kept-mallocs r cs fs in
      let same = without-absent (file r).name fs absent in
      let split = kept-++ cs fs (file r ∷ []) in
      let before : kept cs (write_file (file r) fs) ≡ kept cs fs ++ kept cs (file r ∷ []) =
        ap (λ gs. kept cs (gs ++ file r ∷ [])) same ∙ split in
      let whole = ih ∙ ap (λ gs. gs ++ leaked cs) before in
      elim (Bool-cases (freed_in (file r).name cs)) [
        | inl f ↦ ground (arith, whole, one, f, append-nil (kept cs fs))
        | inr f ↦
            let moved = append_assoc (kept cs fs) (file r ∷ []) (leaked cs) in
            ground (arith, whole, one, f, moved)
      ]
  files_after-leaked used fs (frees q ∷ cs) e u =
      let fair : is_fair (update used q false) cs ≡ true = ground (arith, e) in
      let ih =
        files_after-leaked (update used q false) (without q fs) cs fair
          (Uses-without used fs q u) in
      ih ∙ ap (λ gs. gs ++ leaked cs) (kept-frees q cs fs)
