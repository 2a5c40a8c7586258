-- ===== src/Http/Server/Write.antt =====
-- write: what goes out is the front of what was to go out.
use piorun.Prelude.{
  ℕ, zero, suc, ◌+◌, ◌-◌, ◌^◌, ◌≤◌, ◌<◌, ◌≡◌, refl, sym, ap, ◌∙◌, Bool-cases, inl, inr, ◌⊎◌, List,
  ◌++◌, some, arith, length, take, drop, length-append, length-take, length-drop, drop-append_add,
  drop-append-le, drop-drop, drop-take, lt→ltb, le→ltb_false, ◌==◌, false,
}
use piorun.Http.Buffer.{max_size, contents, readable_bytes, done}
use piorun.Http.Buffer.Valid.{IsValid, length-contents, retrieve_all-IsValid}
use piorun.Http.Buffer.Transfer.{retrieve_moves}
use piorun.Http.Server.{Server, to_write_bytes, sent_file, sent_head, write, mapped, pending}

-- Both parts are to go out: the head is what the write buffer holds, or has gone out; the file's part lies
-- in the file.
pub record IsReady (s : Server) : Type 0 where
  pub buffer : IsValid s.write_buff
  pub both : s.iov_cnt ≡ 2
  pub head :
      (s.head.iov_len ≡ 0)
      ⊎ ((s.head.iov_base ≡ s.write_buff.read_pos) × (s.head.iov_len ≡ readable_bytes s.write_buff))
  pub within : s.file.iov_base + s.file.iov_len ≤ length (mapped s.response)
  pub small : s.file.iov_len < 2 ^ 63

module _ (s : Server) (v : IsReady s) where
  abbrev head_bytes : List ℕ
  head_bytes = take s.head.iov_len (drop s.head.iov_base s.write_buff.storage)

  abbrev file_bytes : List ℕ
  file_bytes = take s.file.iov_len (drop s.file.iov_base (mapped s.response))

  length-file_bytes : length file_bytes ≡ s.file.iov_len
  length-file_bytes = omega (
    arith,
    v.within,
    length-take s.file.iov_len (drop s.file.iov_base (mapped s.response)),
    length-drop s.file.iov_base (mapped s.response),
  )

  head_contents :
      s.head.iov_base ≡ s.write_buff.read_pos
      → s.head.iov_len ≡ readable_bytes s.write_buff
      → head_bytes ≡ contents s.write_buff
  head_contents b l =
      ap (λ n. take n (drop s.head.iov_base s.write_buff.storage)) l
      ∙ ap (λ p. take (readable_bytes s.write_buff) (drop p s.write_buff.storage)) b

  length-head_bytes : length head_bytes ≡ s.head.iov_len
  length-head_bytes = elim v.head [
    | inl none_left ↦
        omega (arith, length-take s.head.iov_len (drop s.head.iov_base s.write_buff.storage))
    | inr (b, l) ↦
        omega (arith, ap length (head_contents b l), length-contents {b = s.write_buff} v.buffer)
  ]

  -- The head, or a part of it, goes out.
  sent_head-IsReady :
      (n : ℕ)
      → 0 < n
      → n ≤ s.head.iov_len
      → (s' : Server) × (sent_head s n ≡ some s') × IsReady s' × (pending s' ≡ drop n (pending s))
  unfolding sent_head
  sent_head-IsReady n some_sent few = elim v.head [
    | inl none_left ↦ absurd (omega arith)
    | inr (b, l) ↦
        (let (made, valid, text) =
            retrieve_moves {b = s.write_buff} n v.buffer
              (omega (arith, length-contents {b = s.write_buff} v.buffer)) in
          (
            record s {
              write_buff = record s.write_buff { read_pos = s.write_buff.read_pos + n };
              head = record { iov_base = s.head.iov_base + n; iov_len = s.head.iov_len - n };
            },
            rw made refl,
            record {
              buffer = valid;
              head = inr (
                omega arith,
                omega (arith, l, valid.ordered, valid.within, valid.size, v.buffer.ordered),
              );
              both = v.both;
              within = v.within;
              small = v.small;
            },
            sym (
                drop-append-le n head_bytes file_bytes (omega (arith, length-head_bytes))
                ∙ ap (λ l. l ++ file_bytes)
                    (drop-take n (s.head.iov_len - n) s.head.iov_len
                        (drop s.head.iov_base s.write_buff.storage) (omega arith)
                      ∙ ap (λ l. take (s.head.iov_len - n) l)
                          (drop-drop s.head.iov_base n (s.head.iov_base + n) s.write_buff.storage
                            refl))),
          ))
  ]

  file_part :
      (n : ℕ)
      → s.head.iov_len < n
      → n ≤ s.head.iov_len + s.file.iov_len
      → take
          (s.file.iov_len - (n - s.head.iov_len))
          (drop (s.file.iov_base + (n - s.head.iov_len)) (mapped s.response))
        ≡ drop n (pending s)
  file_part n past few =
      let k = n - s.head.iov_len in
      sym (
        drop-append_add head_bytes file_bytes n k (omega (arith, length-head_bytes))
        ∙ drop-take k (s.file.iov_len - k) s.file.iov_len (drop s.file.iov_base (mapped s.response))
            (omega arith)
        ∙ ap (λ l. take (s.file.iov_len - k) l)
            (drop-drop s.file.iov_base k (s.file.iov_base + k) (mapped s.response) refl))

  -- The rest of the head and a part of the file go out.
  sent_file-IsReady :
      (n : ℕ)
      → s.head.iov_len < n
      → n ≤ s.head.iov_len + s.file.iov_len
      → IsReady (sent_file s (n - s.head.iov_len))
        × (pending (sent_file s (n - s.head.iov_len)) ≡ drop n (pending s))
  unfolding sent_file
  sent_file-IsReady n past few = elim (Bool-cases (s.head.iov_len == 0)) [
    | inl none_left ↦
        let nothing : s.head.iov_len ≡ 0 = ground arith in
        rw none_left (
          record {
            buffer = v.buffer;
            both = v.both;
            head = v.head;
            within = omega (arith, v.within);
            small = omega (arith, v.small);
          },
          ap
                (λ m.
                  take m (drop s.head.iov_base s.write_buff.storage)
                  ++ take (s.file.iov_len - (n - s.head.iov_len))
                      (drop (s.file.iov_base + (n - s.head.iov_len)) (mapped s.response)))
                nothing
              ∙ file_part n past few,
        )
    | inr some_left ↦ rw some_left (
      record {
        buffer = (retrieve_all-IsValid {b = s.write_buff} v.buffer).0;
        both = v.both;
        head = inl refl;
        within = omega (arith, v.within);
        small = omega (arith, v.small);
      },
      file_part n past few,
    )
  ]

  length-pending : length (pending s) ≡ s.head.iov_len + s.file.iov_len
  length-pending =
      omega (arith, length-append head_bytes file_bytes, length-head_bytes, length-file_bytes)

  head_bound : s.head.iov_len ≤ max_size
  head_bound = elim v.head [
    | inl none_left ↦ omega arith
    | inr (b, l) ↦ omega (arith, v.buffer.ordered, v.buffer.within, v.buffer.size)
  ]

==_positive : (n : ℕ) → 0 < n → (n == 0) ≡ false
==_positive n h = ground arith

le-or-lt : (a b : ℕ) → (a ≤ b) ⊎ (b < a)
le-or-lt a b = omega arith

-- With the parts in order, and at most as much taken as they hold, but something: write succeeds; what is
-- still to go out is what was to go out without its first bytes, as many as were taken; and the
-- parts stay in order.
pub write_sends :
    (s : Server) (n : ℕ)
    → IsReady s
    → 0 < n
    → n ≤ length (pending s)
    → (s' : Server) × (write s (done n) ≡ some (s', done n))
      × IsReady s'
      × (pending s' ≡ drop n (pending s))
unfolding write
write_sends s zero v h few = absurd (omega arith)
write_sends s (suc n) v h few =
    let size = length-pending s v in
    let left : (to_write_bytes s == 0) ≡ false =
      ==_positive (to_write_bytes s) (omega (arith, size, head_bound s v, v.small)) in
    elim (le-or-lt (suc n) s.head.iov_len) [
      | inl in_head ↦
          (let (s', made, ready, text) = sent_head-IsReady s v (suc n) h in_head in
            (s', rw (left, le→ltb_false s.head.iov_len (suc n) in_head, made) refl, ready, text))
      | inr past ↦
          (let (ready, text) = sent_file-IsReady s v (suc n) past (omega (arith, size)) in
            (
              sent_file s (suc n - s.head.iov_len),
              rw (left, lt→ltb s.head.iov_len (suc n) past) refl,
              ready,
              text,
            ))
    ]
