-- ===== src/Handlers/Frame.antt =====
-- handlers.c: where the loop over the action parameters looks for them, and what it writes.
use t4p4s_ma.Common.{
  ℕ, zero, suc, ◌+◌, ◌*◌, ◌%◌, ◌<◌, ◌≤◌, ◌≡◌, ◌⊎◌, ◌∙◌, ap, subst, refl, arith, pos, le→ltb,
}
use t4p4s_ma.Memory.{Cmd, pure, and_then, Mem, Run, ok, fault, Returns, load32, store32, htonl}
use t4p4s_ma.Memory.Laws.{store32_ne}
use t4p4s_ma.Messages.Layout.At
use t4p4s_ma.Messages.Layout.Size
use t4p4s_ma.Handlers.{CtrlMsg, put, take_params, handle_p4_set_default_action, max_action_params}

-- Once `n` parameters, from index `i` on, are taken from `start` on: the pointers, each 260 bytes
-- behind the one before; the ones below `i` and the count stay; and no byte is written before the
-- length of the first parameter, nor from the end of the last one on.
pub record Taken (n i start : ℕ) (c c' : CtrlMsg) (m g : Mem) : Type 0 where
  pub count : c'.num_action_params ≡ c.num_action_params
  pub at : (j : ℕ) → j < n → c'.action_params (i + j) ≡ start + Size.action_parameter * j
  pub kept : (j : ℕ) → j < i → c'.action_params j ≡ c.action_params j
  pub frame :
      (b : ℕ) → (b < start + At.param_length) ⊎ (start + Size.action_parameter * n ≤ b) → g b ≡ m b

Returns-map :
    {A : Type 0} (P Q : A → Mem → Type 0)
    → ((a : A) (m : Mem) → P a m → Q a m)
    → (r : Run A) → Returns P r
    → Returns Q r
Returns-map P Q f (ok a m) h = f a m h
Returns-map P Q f fault h = h

Returns-bind :
    {A B : Type 0} (P : A → Mem → Type 0) (Q : B → Mem → Type 0) (k : A → Cmd B)
    → ((a : A) (m : Mem) → P a m → Returns Q (k a m))
    → (r : Run A) → Returns P r
    → Returns Q (and_then r k)
Returns-bind P Q k f (ok a m) h = f a m h
Returns-bind P Q k f fault h = h

put_self : (a : ℕ → ℕ) (i p : ℕ) → put a i p i ≡ p
put_self a i p = ground arith

put_ne : (a : ℕ → ℕ) (i p j : ℕ) → j < i → put a i p j ≡ a j
put_ne a i p j h = ground arith

module _ (n i start : ℕ) (c c' : CtrlMsg) (m m1 g : Mem)
    (first : (b : ℕ)
      → (b < start + At.param_length) ⊎ (start + At.param_bitmap ≤ b)
      → m1 b ≡ m b) where
  Taken-suc :
      Taken n
        (i + 1)
        (start + Size.action_parameter)
        (record c { action_params = put c.action_params i start })
        c'
        m1
        g
      → Taken (suc n) i start c c' m g
  Taken-suc t = record {
    count = t.count;
    at = place;
    kept = λ j h. t.kept j (omega arith) ∙ put_ne c.action_params i start j h;
    frame = λ b h. t.frame b (ground (arith, h)) ∙ first b (ground (arith, h));
  }
    where
      place : (j : ℕ) → j < suc n → c'.action_params (i + j) ≡ start + Size.action_parameter * j
      place zero h =
          ap c'.action_params (omega arith)
          ∙ t.kept i (omega arith)
          ∙ put_self c.action_params i start
          ∙ omega arith
      place (suc j) h = ap c'.action_params (omega arith) ∙ t.at j (omega arith) ∙ omega arith

small : (v : ℕ) → v < 65536 → v % 65536 ≡ v
small v h = omega arith

pub take_params_lem :
    (n i buffer offset : ℕ) (c : CtrlMsg) (m : Mem)
    → offset + Size.action_parameter * n < 65536
    → Returns (λ c' g. Taken n i (buffer + offset) c c' m g) (take_params n i buffer offset c m)
unfolding take_params
take_params_lem zero i buffer offset c m h = record {
  count = refl;
  at = λ j lt. absurd (omega arith);
  kept = λ j lt. refl;
  frame = λ b o. refl;
}
take_params_lem (suc n) i buffer offset c m h =
    let start = buffer + offset in
    let c1 : CtrlMsg = record c { action_params = put c.action_params i start } in
    let m1 = store32 m (start + At.param_length) (htonl (load32 m (start + At.param_length))) in
    let rest =
      take_params_lem n (i + 1) buffer (offset + Size.action_parameter) c1 m1 (omega arith) in
    rw (small (offset + Size.action_parameter) (omega arith)) (
      Returns-map (λ c' g. Taken n (i + 1) (buffer + (offset + Size.action_parameter)) c1 c' m1 g)
        (λ c' g. Taken (suc n) i start c c' m g)
        (λ c' g t.
          Taken-suc n i start c c' m m1 g
            (λ b o. store32_ne m (start + At.param_length) _ b (ground (arith, o)))
            (subst (λ s. Taken n (i + 1) s c1 c' m1 g) (omega arith) t))
        (take_params n (i + 1) buffer (offset + Size.action_parameter) c1 m1) rest)

-- `handle_p4_set_default_action` on a message that declares `n` parameters, at most ten, whatever
-- the length of the message: it returns 0; the parameters are taken to stand behind the message's
-- fixed part, each 260 bytes behind the one before; and no byte is written before the length of the
-- first one, nor from the end of the last one on.
pub handle_p4_set_default_action_lem :
    (p n : ℕ) (c : CtrlMsg) (m : Mem)
    → m (p + At.default_action + At.param_size) ≡ n
    → n ≤ max_action_params
    → Returns
        (λ r g.
          (r.0 ≡ pos 0)
          × (r.1.num_action_params ≡ n)
          × ((j : ℕ)
              → j < n
              → r.1.action_params j ≡ p + Size.set_default_action + Size.action_parameter * j)
          × ((b : ℕ)
              → (b < p + Size.set_default_action + At.param_length)
                ⊎ (p + Size.set_default_action + Size.action_parameter * n ≤ b)
              → g b ≡ m b))
        (handle_p4_set_default_action p c m)
unfolding handle_p4_set_default_action
handle_p4_set_default_action_lem p n c m e h =
    let filled : CtrlMsg = record c {
      typ = m (p + At.typ);
      xid = load32 m (p + At.xid);
      table_name = p + At.table_name;
      action_type = m (p + At.default_action + At.action_type);
      action_name = p + At.default_action + At.action_name;
      num_action_params = n;
    } in
    let start = p + Size.set_default_action in
    rw (e, le→ltb max_action_params n h)
      (Returns-bind (λ c' g. Taken n 0 (start + 0) filled c' m g) _ (λ c'. pure (pos 0, c'))
        (λ c' g t. (
          refl,
          t.count,
          (λ j lt. ap c'.action_params (omega arith) ∙ t.at j lt ∙ omega arith),
          (λ b o. t.frame b (ground (arith, o))),
        ))
        (take_params n 0 start 0 filled m) (take_params_lem n 0 start 0 filled m (omega arith)))
