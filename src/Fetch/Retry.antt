-- ===== src/Fetch/Retry.antt =====
-- main.go's `fetchWithRetry`: its attempts in a row.
use georoute.Base.{ℤ, ℕ, suc, ◌+◌, ◌≡◌, ◌∙◌, sym, Option, none, some, pos, arith, ap}
use native.Mathlib.Nat.{add-zero, suc-add, zero-add}
use georoute.Errors.{Error, Result, ok, err}
use georoute.Fetch.{retry_loop, fetch_with_retry, exhausted, before}

module _ {Feed : Type 0} (fetch : ℕ → Result Feed) (wait : ℕ → ℤ → Option Error) (base : ℤ) where
  -- The attempts from `k` on, `n` of them, all fail with these errors and no wait is cut short.
  pub data Fails : ℕ → ℕ → Option Error → Option Error → Type 0 where
    stop : {k : ℕ} {last : Option Error} → Fails k 0 last last
    next :
        {k n : ℕ} {last final : Option Error} (e : Error)
        → before fetch wait k base ≡ none
        → fetch k ≡ err e
        → Fails (k + 1) n (some e) final
        → Fails k (suc n) last final

  pub retry_step :
      (n k : ℕ) (last : Option Error) (e : Error)
      → before fetch wait k base ≡ none
      → fetch k ≡ err e
      → retry_loop fetch wait (suc n) k base last ≡ retry_loop fetch wait n (k + 1) base (some e)
  unfolding retry_loop
  retry_step n k last e w f = simp (w, f, retry_loop)

  pub retry_loop-after :
      {k n : ℕ} {last final : Option Error} (m : ℕ)
      → Fails k n last final
      → retry_loop fetch wait (n + m) k base last ≡ retry_loop fetch wait m (k + n) base final
  retry_loop-after {k = k} {last = last} m stop = simp (add-zero k, zero-add m)
  retry_loop-after {k = k} {n = suc n} {last = last} {final = final} m (next e w f rest) =
      ap (λ i. retry_loop fetch wait i k base last) (suc-add n m)
      ∙ (retry_step (n + m) k last e w f
          ∙ (retry_loop-after m rest ∙ ap (λ i. retry_loop fetch wait m i base final) (shift k n)))
    where
      shift : (a b : ℕ) → a + 1 + b ≡ a + suc b
      shift a b = omega arith

  -- After `n` failures, an attempt that succeeds, within the limit: its feed is the result.
  pub fetch_with_retry-succeeds :
      (n m : ℕ) {final : Option Error} (feed : Feed)
      → Fails 1 n none final
      → before fetch wait (1 + n) base ≡ none
      → fetch (1 + n) ≡ ok feed
      → fetch_with_retry fetch wait (pos (n + suc m)) base ≡ ok feed
  unfolding fetch_with_retry retry_loop
  fetch_with_retry-succeeds n m feed h w f = retry_loop-after (suc m) h ∙ simp (w, f, retry_loop)

  -- Where every attempt fails, the error wraps the last one.
  pub fetch_with_retry-exhausts :
      (n : ℕ) {final : Option Error}
      → Fails 1 n none final
      → fetch_with_retry fetch wait (pos n) base ≡ err (exhausted final)
  unfolding fetch_with_retry retry_loop
  fetch_with_retry-exhausts n h =
      ap (λ i. retry_loop fetch wait i 1 base none) (sym (add-zero n)) ∙ retry_loop-after 0 h
