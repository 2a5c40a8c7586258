-- ===== src/Http/Buffer/Queue.antt =====
-- A buffer is a queue of bytes: what its users see of any sequence of calls.
use piorun.Prelude.{
  ℕ, ◌+◌, ◌≤◌, ◌≡◌, refl, ◌∙◌, inl, inr, List, [], ◌∷◌, ◌++◌, some, none, arith, Option, length,
  drop, if◌then◌else◌, leb, some_inj, guarded_some, >>=-eq-some, length-replicate, leb→le, ◌>>=◌,
}
use piorun.Http.Buffer.{
  Buffer, max_size, contents, append, retrieve, retrieve_all, retrieve_all_to_str, done, read_fd,
  write_fd,
}
use piorun.Http.Buffer.Valid.{IsValid, retrieve_all-IsValid}
use piorun.Http.Buffer.Append.{append-Appended}
use piorun.Http.Buffer.Transfer.{retrieve_lem, write_fd_done, write_fd_rest}
use piorun.Http.Buffer.ReadFd.{read_fd_done}

-- The calls of the server and of the kernel on one buffer.
pub data Call : Type 0 where
  appends : List ℕ → Call
  receives : List ℕ → Call
  sends : ℕ → Call
  retrieves : ℕ → Call
  takes_all : Call

pub call : Call → Buffer → Option Buffer
call (appends s) b = append b s
call (receives s) b = do r ← read_fd b (done s); some r.0
call (sends n) b = some (write_fd b (done n)).0
call (retrieves n) b = retrieve b n
call takes_all b = some (retrieve_all_to_str b).1

pub calls : List Call → Buffer → Option Buffer
calls [] b = some b
calls (c ∷ cs) b = do b' ← call c b; calls cs b'

-- The specification: a queue of bytes, of which too many cannot be taken. The kernel never
-- sends more than it is given.
unfoldable pub queue_call : Call → List ℕ → Option (List ℕ)
queue_call (appends s) q = some (q ++ s)
queue_call (receives s) q = some (q ++ s)
queue_call (sends n) q = if leb n (length q) then some (drop n q) else none
queue_call (retrieves n) q = if leb n (length q) then some (drop n q) else none
queue_call takes_all q = some []

unfoldable pub queue_calls : List Call → List ℕ → Option (List ℕ)
unfolding queue_call
queue_calls [] q = some q
queue_calls (c ∷ cs) q = do q' ← queue_call c q; queue_calls cs q'

-- By how much a call can make the vector larger.
abbrev pub cost : Call → ℕ
cost (appends s) = length s + 1
cost (receives s) = length s + 1
cost _ = 0

abbrev pub costs : List Call → ℕ
costs [] = 0
costs (c ∷ cs) = cost c + costs cs

-- A buffer that does what the queue does.
pub record Refines (b : Buffer) (c : Call) (q' : List ℕ) : Type 0 where
  pub result : Buffer
  pub returns : call c b ≡ some result
  pub valid : IsValid result
  pub text : contents result ≡ q'
  pub grown : length result.storage ≤ length b.storage + cost c

retrieve-storage :
    (b : Buffer) (n : ℕ) {b' : Buffer}
    → retrieve b n ≡ some b'
    → length b'.storage ≤ length b.storage + 0
unfolding retrieve
retrieve-storage b n e = ground arith

call-Refines :
    {b : Buffer} (c : Call) (q' : List ℕ)
    → IsValid b
    → length b.storage + cost c ≤ max_size
    → queue_call c (contents b) ≡ some q'
    → Refines b c q'
unfolding call queue_call
call-Refines {b} (appends s) q' v small e =
    let (b', made, a) = append-Appended {b = b} s v (omega (arith, v.within)) in
    record {
      result = b';
      returns = made;
      valid = a.valid;
      text = a.text ∙ some_inj _ _ e;
      grown = omega (arith, a.grown);
    }
call-Refines {b} (receives s) q' v small e =
    let (b', made, a) = read_fd_done {b = b} s v (omega (arith, v.within)) in
    record {
      result = b';
      returns = rw made refl;
      valid = a.valid;
      text = a.text ∙ some_inj _ _ e;
      grown = omega (arith, a.grown);
    }
call-Refines {b} (sends n) q' v small e =
    let (t, same) = guarded_some (leb n (length (contents b))) (drop n (contents b)) q' e in
    let few = leb→le n (length (contents b)) t in
    let (_, valid, _) = write_fd_done {b = b} n v few in
    record {
      result = (write_fd b (done n)).0;
      returns = refl;
      valid = valid;
      text = write_fd_rest {b = b} n v few ∙ same;
      grown = unfold write_fd in omega arith;
    }
call-Refines {b} (retrieves n) q' v small e =
    let (t, same) = guarded_some (leb n (length (contents b))) (drop n (contents b)) q' e in
    let few = leb→le n (length (contents b)) t in
    elim (retrieve_lem {b = b} n v) [
      | inr (less, _) ↦ absurd (omega (arith, few, less))
      | inl (_, b', made, valid, text) ↦ record {
        result = b';
        returns = made;
        valid = valid;
        text = text ∙ same;
        grown = retrieve-storage b n made;
      }
    ]
call-Refines {b} takes_all q' v small e =
    let (valid, text) = retrieve_all-IsValid {b = b} v in
    record {
      result = retrieve_all b;
      returns = unfold retrieve_all_to_str in refl;
      valid = valid;
      text = text ∙ some_inj _ _ e;
      grown = unfold retrieve_all in omega (arith, length-replicate {A = ℕ} (length b.storage) 0);
    }

-- As long as the sizes of the buffer and of what goes in stay within 2^63 - 1, every sequence of calls
-- that the queue of bytes allows succeeds on a valid buffer, and leaves it valid and
-- holding the bytes that the queue holds.
pub calls-Refines :
    (cs : List Call) {b : Buffer} (q' : List ℕ)
    → IsValid b
    → length b.storage + costs cs ≤ max_size
    → queue_calls cs (contents b) ≡ some q'
    → (b' : Buffer) × (calls cs b ≡ some b') × IsValid b' × (contents b' ≡ q')
unfolding calls queue_calls
calls-Refines [] {b} q' v small e = (b, refl, v, some_inj _ _ e)
calls-Refines (c ∷ cs) {b} q' v small e =
    let (q₁, step, later) = >>=-eq-some (queue_call c (contents b)) (queue_calls cs) q' e in
    let r = call-Refines {b = b} c q₁ v (omega (arith, small)) step in
    let (b', made, valid, text) =
      calls-Refines cs {b = r.result} q' r.valid (omega (arith, r.grown, small))
        (rw r.text later) in
    (b', rw r.returns made, valid, text)
