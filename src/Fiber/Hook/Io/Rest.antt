-- ===== src/Fiber/Hook/Io/Rest.antt =====
-- The loop that write and send of src/piorun/fiber/syshook.cc share, on a kernel that takes fronts of
-- the bytes.
use piorun.Prelude.{
  ℕ, zero, suc, ◌+◌, ◌≤◌, ◌<◌, ◌≡◌, refl, sym, ap, ◌∙◌, List, [], ◌∷◌, ◌++◌, none, some, Bool, true,
  false, ltb, length, take, drop, length-drop, ◌⊎◌, inl, inr, Bool-cases, Option-cases, subst,
  arith, some_inj, append_assoc,
}
use piorun.Http.Buffer.{IoResult, failed, done}
use piorun.Fiber.Poll.Quiet.{IsQuiet}
use piorun.Fiber.Hook.{Context, Contexts, State, System, call, out_events, timeout_ms}
use piorun.Fiber.Hook.Poll.Quiet.{seen-poll}
use piorun.Fiber.Hook.Io.{
  wrote, wrote_len, write_result, is_zero, send_rest, send_blocking, send_all, await_fd, look_up,
  blocking,
}

take_nil : {A : Type 0} (n : ℕ) → take {A = A} n [] ≡ []
take_nil zero = refl
take_nil (suc n) = refl

suc_add : (n k : ℕ) → suc (n + k) ≡ suc n + k
suc_add n k = omega arith

take_add : {A : Type 0} (n k : ℕ) (xs : List A) → take n xs ++ take k (drop n xs) ≡ take (n + k) xs
take_add zero k xs = ap (λ m. take m xs) (omega arith)
take_add (suc n) k [] = ap (λ l. l) (take_nil k) ∙ sym (take_nil (suc n + k))
take_add (suc n) k (x ∷ xs) =
    ap (λ l. x ∷ l) (take_add n k xs) ∙ ap (λ m. take m (x ∷ xs)) (suc_add n k)

-- A call that sends: it takes a front of the bytes, which is as long as its result says, and
-- `sent` tells the bytes that have been taken so far.
pub record IsSending {K : Type 0} (f : List ℕ → K → IoResult ℕ × K) (sent : K → List ℕ)
    : Type 0 where
  pub len-le : (buf : List ℕ) (k : K) → wrote_len (f buf k).0 ≤ length buf
  pub front : (buf : List ℕ) (k : K) → sent (f buf k).1 ≡ sent k ++ take (wrote_len (f buf k).0) buf

wrote_len-write_result : (last : IoResult ℕ) (n : ℕ) → wrote_len (write_result last n) ≡ n
wrote_len-write_result (failed e) n = ground arith
wrote_len-write_result (done zero) n = ground arith
wrote_len-write_result (done (suc m)) n = refl

zero_len : (r : IoResult ℕ) → is_zero r ≡ true → wrote_len r ≡ 0
zero_len (failed e) h = cc
zero_len (done n) h = ground arith

wrote-none : (r : IoResult ℕ) → wrote r ≡ none → wrote_len r ≡ 0
wrote-none (failed e) h = refl
wrote-none (done zero) h = refl
wrote-none (done (suc n)) h = cc

wrote-some : (r : IoResult ℕ) (n : ℕ) → wrote r ≡ some n → (wrote_len r ≡ n) × (0 < n)
wrote-some (failed e) n h = cc
wrote-some (done zero) n h = cc
wrote-some (done (suc m)) n h = let e = some_inj (suc m) n h in (e, omega (arith, e))

module _ {K : Type 0} (sys : System K) (hooked : Bool) (f : List ℕ → K → IoResult ℕ × K)
    (sent : K → List ℕ) (q : IsQuiet sys.poller (λ (o : Contexts × K). sent o.1))
    (h : IsSending f sent) where
  -- Some call took nothing of some bytes.
  pub IsStuck : Type 0
  IsStuck = (bytes : List ℕ) × (k : K) × (0 < length bytes) × (wrote_len (f bytes k).0 ≡ 0)

  -- One more call at `n`, after a wait.
  sent_more :
      (fd timeout n : ℕ) (buf before : List ℕ) (s : State K)
      → sent s.kernel ≡ before ++ take n buf
      → let k = (await_fd sys hooked fd out_events timeout s).kernel in
        sent (f (drop n buf) k).1 ≡ before ++ take (n + wrote_len (f (drop n buf) k).0) buf
  sent_more fd timeout n buf before s e =
      let k = (await_fd sys hooked fd out_events timeout s).kernel in
      h.front (drop n buf) k
      ∙ ap (λ l. l ++ take (wrote_len (f (drop n buf) k).0) (drop n buf))
          (seen-poll sys q hooked _ timeout s ∙ e)
      ∙ append_assoc before _ _
      ∙ ap (λ l. before ++ l) (take_add n _ buf)

  send_rest_lem :
      (fuel fd timeout : ℕ) (buf before : List ℕ) (last : IoResult ℕ) (n : ℕ) (s : State K)
      → n ≤ length buf
      → length buf ≤ n + fuel
      → sent s.kernel ≡ before ++ take n buf
      → (last' : IoResult ℕ) × (n' : ℕ) × (s' : State K) × (send_rest sys hooked fuel f fd timeout
            buf last n s
          ≡ some (last', n', s'))
        × (n' ≤ length buf)
        × (sent s'.kernel ≡ before ++ take n' buf)
        × ((n' ≡ length buf) ⊎ IsStuck)
  unfolding send_rest IsStuck
  send_rest_lem zero fd timeout buf before last n s le enough e =
      let over : ltb n (length buf) ≡ false = ground arith in
      (last, n, s, rw over refl, le, e, inl (ground arith))
  send_rest_lem (suc fuel) fd timeout buf before last n s le enough e =
      let k = (await_fd sys hooked fd out_events timeout s).kernel in
      let r = call (f (drop n buf)) (await_fd sys hooked fd out_events timeout s) in
      let more = sent_more fd timeout n buf before s e in
      elim (Bool-cases (ltb n (length buf))) [
        | inr over ↦ (last, n, s, rw over refl, le, e, inl (ground arith))
        | inl bytes_left ↦ elim (Option-cases (wrote r.0)) [
          | inl ended ↦ (
            r.0,
            n,
            r.1,
            rw (bytes_left, ended) refl,
            le,
            more ∙ ap (λ m. before ++ take m buf) (omega (arith, wrote-none r.0 ended)),
            inr (drop n buf, k, ground (arith, length-drop n buf), wrote-none r.0 ended),
          )
          | inr (m, sends) ↦
              let (count, positive) = wrote-some r.0 m sends in
              let (last', n', s', made, le', e', why) =
                send_rest_lem fuel fd timeout buf before r.0 (n + m) r.1
                  (omega (arith, h.len-le (drop n buf) k, length-drop n buf)) (omega arith)
                  (more ∙ ap (λ i. before ++ take (n + i) buf) count) in
              (last', n', s', rw (bytes_left, sends) made, le', e', why)
        ]
      ]

  stopped :
      (buf : List ℕ) (s : State K)
      → is_zero (f buf s.kernel).0 ≡ true
      → (wrote_len (f buf s.kernel).0 ≡ length buf) ⊎ IsStuck
  unfolding IsStuck
  stopped [] s e = inl (zero_len (f [] s.kernel).0 e)
  stopped (b ∷ bs) s e = inr (b ∷ bs, s.kernel, omega arith, zero_len (f (b ∷ bs) s.kernel).0 e)

  pub send_blocking_lem :
      (fuel fd timeout : ℕ) (buf : List ℕ) (s : State K)
      → length buf ≤ fuel
      → (r : IoResult ℕ) × (s' : State K) × (send_blocking sys hooked fuel f fd timeout buf s
          ≡ some (r, s'))
        × (wrote_len r ≤ length buf)
        × (sent s'.kernel ≡ sent s.kernel ++ take (wrote_len r) buf)
        × ((wrote_len r ≡ length buf) ⊎ IsStuck)
  unfolding send_blocking IsStuck
  send_blocking_lem fuel fd timeout buf s enough =
      let first = call (f buf) s in
      let given = h.front buf s.kernel in
      let fits = h.len-le buf s.kernel in
      elim (Bool-cases (is_zero first.0)) [
        | inl nothing ↦ (first.0, first.1, rw nothing refl, fits, given, stopped buf s nothing)
        | inr more ↦
            let (last, n, s', made, le, e, why) =
              send_rest_lem fuel fd timeout buf (sent s.kernel) first.0 (wrote_len first.0) first.1
                fits (omega arith) given in
            let count = wrote_len-write_result last n in
            (
              write_result last n,
              s',
              rw (more, made) refl,
              subst (λ m. m ≤ length buf) (sym count) le,
              e ∙ ap (λ m. sent s.kernel ++ take m buf) (sym count),
              elim why [ inl all ↦ inl (count ∙ all) | inr stuck ↦ inr stuck ],
            )
      ]

  pub waiting :
      (fuel fd : ℕ) (buf : List ℕ) (s : State K) (lp : Context)
      → hooked ≡ true
      → blocking (look_up fd s).0 ≡ some lp
      → send_all sys hooked fuel f fd buf s
        ≡ send_blocking sys hooked fuel f fd (timeout_ms lp.write_timeout) buf (look_up fd s).1
  unfolding send_all
  waiting fuel fd buf s lp on waits = rw (on, waits) refl

  pub send_all_lem :
      (fuel fd : ℕ) (buf : List ℕ) (s : State K)
      → length buf ≤ fuel
      → (r : IoResult ℕ) × (s' : State K) × (send_all sys hooked fuel f fd buf s ≡ some (r, s'))
        × (wrote_len r ≤ length buf)
        × (sent s'.kernel ≡ sent s.kernel ++ take (wrote_len r) buf)
  unfolding send_all
  send_all_lem fuel fd buf s enough =
      let given = h.front buf s.kernel in
      let fits = h.len-le buf s.kernel in
      let r = (f buf s.kernel).0 in
      elim (Bool-cases hooked) [
        | inr off ↦ (r, (call (f buf) s).1, rw off refl, fits, given)
        | inl on ↦ elim (Option-cases (blocking (look_up fd s).0)) [
          | inl direct ↦ (r, (call (f buf) (look_up fd s).1).1, rw (on, direct) refl, fits, given)
          | inr (lp, waits) ↦
              let (r', s', made, fits', given', _) =
                send_blocking_lem fuel fd (timeout_ms lp.write_timeout) buf (look_up fd s).1
                  enough in
              (r', s', waiting fuel fd buf s lp on waits ∙ made, fits', given')
        ]
      ]

  pub whole :
      {n m : ℕ}
      → ((bytes : List ℕ) (k : K) → 0 < length bytes → 0 < wrote_len (f bytes k).0)
      → (n ≡ m) ⊎ IsStuck
      → n ≡ m
  unfolding IsStuck
  whole takes (inl e) = e
  whole takes (inr (bytes, k, some_left, nothing)) =
      absurd (omega (arith, takes bytes k some_left, nothing))
