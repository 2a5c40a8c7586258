-- ===== src/Fiber/Hook/Fcntl/Flags.antt =====
-- The flags of a descriptor as fcntl of src/piorun/fiber/syshook.cc shows them.
use piorun.Prelude.{
  ℕ, ◌^◌, ◌<◌, ◌≡◌, refl, ap, ◌∙◌, some, Bool, true, false, ◌==◌, if◌then◌else◌, arith, lt→ltb, inl,
  inr, Bool-cases, ==_refl,
}
use piorun.Fiber.Hook.{
  Context, State, System, f_getfl, f_setfl, is_nonblock, with_nonblock, without_nonblock,
  contexts_size, get_context_by_fd, fresh_context, int_minus_one, set_context,
}
use piorun.Fiber.Hook.Fcntl.{fcntl, shown_flags}

pub is_nonblock-with_nonblock : (p : ℕ) → is_nonblock (with_nonblock p) ≡ true
is_nonblock-with_nonblock p = ground arith

is_nonblock-without_nonblock : (p : ℕ) → is_nonblock (without_nonblock p) ≡ false
is_nonblock-without_nonblock p = ground arith

without_nonblock_idem : (p : ℕ) → without_nonblock (without_nonblock p) ≡ without_nonblock p
without_nonblock_idem p = rw (is_nonblock-without_nonblock p) refl

-- The context that GetContextByFd gives.
abbrev pub found_at : (ℕ → Context) → ℕ → Context
found_at c fd = if (c fd).domain == int_minus_one then fresh_context else c fd

pub get_context_lem :
    (c : ℕ → Context) (fd : ℕ)
    → fd < contexts_size
    → get_context_by_fd c fd ≡ (some (found_at c fd), set_context c fd (found_at c fd))
unfolding get_context_by_fd
get_context_lem c fd small = rw (lt→ltb fd contexts_size small) refl

pub found_at-used : (c : ℕ → Context) (fd : ℕ) → ((found_at c fd).domain == int_minus_one) ≡ false
found_at-used c fd = elim (Bool-cases ((c fd).domain == int_minus_one)) [
  | inl unused ↦ rw unused refl
  | inr used ↦ rw (used, used) refl
]

pub found_at-set :
    (c : ℕ → Context) (fd : ℕ) (h : Context)
    → (h.domain == int_minus_one) ≡ false
    → found_at (set_context c fd h) fd ≡ h
found_at-set c fd h used = rw (==_refl fd, used) refl

module _ {K : Type 0} (sys : System K) (fd : ℕ) (small : fd < contexts_size) (s : State K) where
  -- fcntl(F_SETFL) of a hooked fiber.
  pub fcntl-f_setfl :
      (p : ℕ)
      → (sys.sys_fcntl fd (f_setfl (with_nonblock p)) s.kernel).0 ≡ 0
      → fcntl sys true fd (f_setfl p) s ≡ (
        0,
        record s {
          contexts =
              set_context
                (set_context s.contexts fd (found_at s.contexts fd))
                fd
                (record (found_at s.contexts fd) { user_flag = p });
          kernel = (sys.sys_fcntl fd (f_setfl (with_nonblock p)) s.kernel).1;
        },
      )
  unfolding fcntl
  fcntl-f_setfl p set =
      rw (get_context_lem s.contexts fd small, lt→ltb fd (2 ^ 31) (omega arith), set) refl

  pub fcntl-f_getfl :
      (hooked : Bool)
      → (fcntl sys hooked fd f_getfl s).0
        ≡ shown_flags (some (found_at s.contexts fd)) (sys.sys_fcntl fd f_getfl s.kernel).0
  unfolding fcntl
  fcntl-f_getfl hooked =
      rw (get_context_lem s.contexts fd small, lt→ltb fd (2 ^ 31) (omega arith)) refl

shown_flags_lem :
    (lp : Context) (g : ℕ)
    → is_nonblock g ≡ true
    → (is_nonblock (shown_flags (some lp) g) ≡ is_nonblock lp.user_flag)
      × (without_nonblock (shown_flags (some lp) g) ≡ without_nonblock g)
shown_flags_lem lp g has = elim (Bool-cases (is_nonblock lp.user_flag)) [
  | inl non ↦ rw non (has, refl)
  | inr blocks ↦ rw blocks (is_nonblock-without_nonblock g, without_nonblock_idem g)
]

module _ {K : Type 0} (sys : System K) (fd : ℕ) (small : fd < contexts_size) (s : State K) where
  -- A hooked fiber sets the flags `p` of a descriptor below 102400, and the kernel accepts: what the kernel was
  -- given has O_NONBLOCK, whatever `p` is. If it then reports some flags `g` with O_NONBLOCK, as it does after
  -- that, F_GETFL shows O_NONBLOCK exactly if `p` has it, and all other flags as in `g`.
  pub fcntl_hides_nonblock :
      (p g : ℕ)
      → (sys.sys_fcntl fd (f_setfl (with_nonblock p)) s.kernel).0 ≡ 0
      → (sys.sys_fcntl fd f_getfl (sys.sys_fcntl fd (f_setfl (with_nonblock p)) s.kernel).1).0 ≡ g
      → is_nonblock g ≡ true
      → let (set, s') = fcntl sys true fd (f_setfl p) s in
        let shown = (fcntl sys true fd f_getfl s').0 in
        (set ≡ 0)
        × (s'.kernel ≡ (sys.sys_fcntl fd (f_setfl (with_nonblock p)) s.kernel).1)
        × (is_nonblock (with_nonblock p) ≡ true)
        × (is_nonblock shown ≡ is_nonblock p)
        × (without_nonblock shown ≡ without_nonblock g)
  fcntl_hides_nonblock p g set get has =
      let lp : Context = record (found_at s.contexts fd) { user_flag = p } in
      let done_set = fcntl-f_setfl sys fd small s p set in
      let seen : (fcntl sys true fd f_getfl (fcntl sys true fd (f_setfl p) s).1).0
          ≡ shown_flags (some lp) g =
        ap (λ r. (fcntl sys true fd f_getfl r.1).0) done_set
        ∙ fcntl-f_getfl sys fd small _ true
        ∙ ap
            (λ h.
              shown_flags (some h)
                (sys.sys_fcntl fd f_getfl
                  (sys.sys_fcntl fd (f_setfl (with_nonblock p)) s.kernel).1).0)
            (found_at-set (set_context s.contexts fd (found_at s.contexts fd)) fd lp
              (found_at-used s.contexts fd))
        ∙ ap (shown_flags (some lp)) get in
      let (same, rest) = shown_flags_lem lp g has in
      (
        ap (λ r. r.0) done_set,
        ap (λ r. r.1.kernel) done_set,
        is_nonblock-with_nonblock p,
        ap is_nonblock seen ∙ same,
        ap without_nonblock seen ∙ rest,
      )
