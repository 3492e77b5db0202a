-- ===== src/Connection/CommandClient/Calls.antt =====
-- Every request's handler is called once, or still waits.
use Prim.Native.String.{String}
use ws_streaming.Prelude.{
  ℕ, ◌+◌, ◌%◌, ◌^◌, ◌<◌, ◌≡◌, refl, List, [], ◌∷◌, ◌++◌, Option, none, some, ◌==◌, ltb, leb, ◌&&◌,
  if◌then◌else◌, arith, append-nil, Option-cases, inl, inr,
}
use ws_streaming.Connection.CommandClient.{
  responded, Call, Client, client, find_request, emplace, erase, async_request, abort_all, cancel,
  handle_response,
}

module _ {Handler : Type 0} where
  -- How many requests wait with the id.
  pub waiting : ℕ → List (ℕ × Handler) → ℕ
  waiting k [] = 0
  waiting k ((n, h) ∷ rs) = (if n == k then 1 else 0) + waiting k rs

  waiting-append :
      (k : ℕ) (rs : List (ℕ × Handler)) (n : ℕ) (h : Handler)
      → waiting k (rs ++ ((n, h) ∷ [])) ≡ waiting k rs + (if n == k then 1 else 0)
  unfolding waiting
  waiting-append k [] n h = omega arith
  waiting-append k ((m, x) ∷ rs) n h = ground (arith, waiting-append k rs n h)

  find_request-none :
      (k : ℕ) (rs : List (ℕ × Handler)) → waiting k rs ≡ 0 → find_request k rs ≡ none
  unfolding waiting find_request
  find_request-none k [] h = refl
  find_request-none k ((n, x) ∷ rs) h = ground (arith, find_request-none k rs)

  waiting-erase :
      (k id : ℕ) (h : Handler) (rs : List (ℕ × Handler))
      → find_request id rs ≡ some h
      → waiting k (erase id rs) + (if id == k then 1 else 0) ≡ waiting k rs
  unfolding waiting find_request erase
  waiting-erase k id h [] f = cc
  waiting-erase k id h ((n, x) ∷ rs) f = ground (arith, waiting-erase k id h rs)

module _ {Handler Json : Type 0} where
  -- How many calls have been made for the id.
  pub called : ℕ → List (Call Handler Json) → ℕ
  called k [] = 0
  called k (x ∷ xs) = (if x.id == k then 1 else 0) + called k xs

  called-append :
      (k : ℕ) (xs ys : List (Call Handler Json)) → called k (xs ++ ys) ≡ called k xs + called k ys
  unfolding called
  called-append k [] ys = omega arith
  called-append k (x ∷ xs) ys = omega (arith, called-append k xs ys)

called-abort_all :
    {Handler : Type 0} (Json : Type 0) (k : ℕ) (rs : List (ℕ × Handler))
    → called k (abort_all {Json = Json} rs) ≡ waiting k rs
unfolding called waiting abort_all
called-abort_all Json k [] = refl
called-abort_all Json k ((n, h) ∷ rs) = omega (arith, called-abort_all Json k rs)

-- The states that a new client comes to, with the number of its requests and the calls made.
pub data Reach {Handler Json : Type 0}
    : Client Handler → ℕ → List (Call Handler Json) → Type 0 where
  start : Reach client 0 []
  requests :
      (c : Client Handler) (n : ℕ) (calls : List (Call Handler Json)) (method : String)
      (params : Json) (h : Handler)
      → Reach c n calls
      → Reach (async_request c method params h).0 (n + 1) calls
  cancels :
      (c : Client Handler) (n : ℕ) (calls : List (Call Handler Json))
      → Reach c n calls
      → Reach (cancel {Json = Json} c).0 n (calls ++ (cancel c).1)
  responses :
      (c : Client Handler) (n : ℕ) (calls : List (Call Handler Json)) (id : Option ℕ)
      (result : Json)
      → Reach c n calls
      → Reach (handle_response c id result).0 n (calls ++ (handle_response c id result).1)

record Counted {Handler Json : Type 0} (c : Client Handler) (n : ℕ)
    (calls : List (Call Handler Json)) : Type 0 where
  next : c.next_id ≡ n + 1
  once : (k : ℕ) → called k calls + waiting k c.requests ≡ (if (ltb 0 k && leb k n) then 1 else 0)

module _ {Handler Json : Type 0} where
  request-Counted :
      (c : Client Handler) (n : ℕ) (calls : List (Call Handler Json)) (method : String)
      (params : Json) (h : Handler)
      → Counted c n calls
      → n + 2 < 2 ^ 32
      → Counted (async_request c method params h).0 (n + 1) calls
  unfolding async_request emplace
  request-Counted c n calls method params h v small =
      let fresh : waiting c.next_id c.requests ≡ 0 = ground (arith, v.once c.next_id, v.next) in
      let free = find_request-none c.next_id c.requests fresh in
      simp (free, async_request, emplace)
        (record {
          next = ground (arith, v.next);
          once = λ k. ground (arith, v.once k, v.next, waiting-append k c.requests c.next_id h);
        })

  cancel-Counted :
      (c : Client Handler) (n : ℕ) (calls : List (Call Handler Json))
      → Counted c n calls
      → Counted (cancel {Json = Json} c).0 n (calls ++ (cancel c).1)
  unfolding cancel waiting
  cancel-Counted c n calls v = record {
    next = v.next;
    once = λ k. omega (
      arith,
      v.once k,
      called-append k calls (abort_all c.requests),
      called-abort_all Json k c.requests,
    );
  }

  response-Counted :
      (c : Client Handler) (n : ℕ) (calls : List (Call Handler Json)) (id : Option ℕ)
      (result : Json)
      → Counted c n calls
      → Counted (handle_response c id result).0 n (calls ++ (handle_response c id result).1)
  unfolding handle_response called
  response-Counted c n calls none result v = rw (append-nil calls) v
  response-Counted c n calls (some m) result v =
      elim (Option-cases (find_request (m % 2 ^ 32) c.requests)) [
        | inl f ↦ simp (f, handle_response) (rw (append-nil calls) v)
        | inr (h, f) ↦
            simp (f, handle_response)
              (record {
                next = v.next;
                once = λ k.
                    let call : Call Handler Json = record {
                      id = m % 2 ^ 32;
                      handler = h;
                      outcome = responded result;
                    } in
                    omega (
                      arith,
                      v.once k,
                      called-append k calls (call ∷ []),
                      waiting-erase k (m % 2 ^ 32) h c.requests f,
                    );
              })
      ]

  Reach-Counted :
      (c : Client Handler) (n : ℕ) (calls : List (Call Handler Json))
      → Reach c n calls
      → n + 1 < 2 ^ 32
      → Counted c n calls
  unfolding client called waiting
  Reach-Counted _ _ _ start small = record { next = refl; once = λ k. ground arith }
  Reach-Counted _ _ _ (requests c n calls method params h r) small =
      request-Counted c n calls method params h (Reach-Counted c n calls r (omega arith))
        (omega arith)
  Reach-Counted _ _ _ (cancels c n calls r) small =
      cancel-Counted c n calls (Reach-Counted c n calls r small)
  Reach-Counted _ _ _ (responses c n calls id result r) small =
      response-Counted c n calls id result (Reach-Counted c n calls r small)

  -- From a new command interface client, through any sequence of requests, fewer than 2^32 - 1,
  -- of responses and of cancellations, each id that was given out has either been called once and
  -- no longer waits, or waits once and has not been called; no other id is called or waits.
  pub called_once :
      (c : Client Handler) (n : ℕ) (calls : List (Call Handler Json)) (k : ℕ)
      → Reach c n calls
      → n + 1 < 2 ^ 32
      → called k calls + waiting k c.requests ≡ (if (ltb 0 k && leb k n) then 1 else 0)
  called_once c n calls k r small = (Reach-Counted c n calls r small).once k
