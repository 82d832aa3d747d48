-- ===== src/Vm/Effect.antt =====
-- Stack effects: what a command does to the two stacks, and how the effects of the calls of
-- vm/stack/stack.c compose.
use mathlib.Core.Path.{subst}
use vector_forth_kernel.Base.{ℕ, ◌<◌, ◌≡◌, refl, ap, sym, ◌∙◌, List, [], ◌∷◌, length, get_or}
use vector_forth_kernel.Vm.State.{Vm, ok, Act, ◌>>=◌, ◌>>◌, done}
use vector_forth_kernel.Vm.Stack.{
  ds_push, ds_pop, ds_peek, ds_pick, ds_depth, rs_push, rs_pop, rs_peek,
}
use vector_forth_kernel.Vm.Stack.View.{
  Data, Returns, other_than_data, other_than_returns, ds_push-room, ds_pop-cons, ds_peek-cons,
  ds_pick-below, length-Data, rs_push-room, rs_pop-cons, rs_peek-cons,
}

-- Both stacks are well formed; the data stack holds `xs` and the return stack `rs`, top first.
pub record Holds (m : Vm) (xs rs : List ℕ) : Type 0 where
  pub on_data : Data m xs
  pub on_returns : Returns m rs

-- All of the state but the two stacks.
abbrev pub other_than_stacks : Vm → Vm
other_than_stacks m = record m { ds = []; dsp = 0; rs = []; rsp_idx = 0 }

-- From any state in which the stacks hold `xs` and `rs` the command returns with `ys` and `ts`,
-- and leaves the rest of the state as it was.
pub record Effect (c : Act) (xs rs ys ts : List ℕ) : Type 0 where
  pub runs :
      (m : Vm)
      → Holds m xs rs
      → (g : Vm) × (c m ≡ ok tt g) × Holds g ys ts × (other_than_stacks g ≡ other_than_stacks m)

pub Returns-frame :
    {m g : Vm} {rs : List ℕ} → other_than_data g ≡ other_than_data m → Returns m rs → Returns g rs
Returns-frame {m} {g} h r =
    let e : g.rs ≡ m.rs = ap (λ v. v.rs) h in
    let f : g.rsp_idx ≡ m.rsp_idx = ap (λ v. v.rsp_idx) h in
    record { stack = rw (e, f) r.stack; holds = rw (e, f) r.holds }

pub Data-frame :
    {m g : Vm} {xs : List ℕ} → other_than_returns g ≡ other_than_returns m → Data m xs → Data g xs
Data-frame {m} {g} h d =
    let e : g.ds ≡ m.ds = ap (λ v. v.ds) h in
    let f : g.dsp ≡ m.dsp = ap (λ v. v.dsp) h in
    record { stack = rw (e, f) d.stack; holds = rw (e, f) d.holds }

pub pop_then :
    (k : ℕ → Act) (v : ℕ) {xs rs ys ts : List ℕ}
    → Effect (k v) xs rs ys ts
    → Effect (ds_pop >>= k) (v ∷ xs) rs ys ts
pop_then k v next = record {
  runs = λ m h.
      let (g, e, d, o) = ds_pop-cons v h.on_data in
      let (g', e', d', o') =
        next.runs g (record { on_data = d; on_returns = Returns-frame o h.on_returns }) in
      (g', rw e e', d', o' ∙ ap other_than_returns o);
}

pub push_then :
    {c : Act} (v : ℕ) {xs rs ys ts : List ℕ}
    → length xs < 256
    → Effect c (v ∷ xs) rs ys ts
    → Effect (ds_push v >> c) xs rs ys ts
push_then v room next = record {
  runs = λ m h.
      let (g, e, d, o) = ds_push-room v h.on_data room in
      let (g', e', d', o') =
        next.runs g (record { on_data = d; on_returns = Returns-frame o h.on_returns }) in
      (g', rw e e', d', o' ∙ ap other_than_returns o);
}

pub push : (v : ℕ) {xs rs : List ℕ} → length xs < 256 → Effect (ds_push v) xs rs (v ∷ xs) rs
push v room = record {
  runs = λ m h.
      let (g, e, d, o) = ds_push-room v h.on_data room in
      (
        g,
        e,
        record { on_data = d; on_returns = Returns-frame o h.on_returns },
        ap other_than_returns o,
      );
}

-- The cell that is pushed may be described otherwise.
pub push_as :
    (v u : ℕ) {xs rs : List ℕ} → v ≡ u → length xs < 256 → Effect (ds_push v) xs rs (u ∷ xs) rs
push_as v u {xs} {rs} e room = subst (λ t. Effect (ds_push v) xs rs (t ∷ xs) rs) e (push v room)

pub push_as_then :
    {c : Act} (v u : ℕ) {xs rs ys ts : List ℕ}
    → v ≡ u
    → length xs < 256
    → Effect c (u ∷ xs) rs ys ts
    → Effect (ds_push v >> c) xs rs ys ts
push_as_then {c} v u {xs} {rs} {ys} {ts} e room next =
    push_then v room (subst (λ t. Effect c (t ∷ xs) rs ys ts) (sym e) next)

pub done_lem : {xs rs : List ℕ} → Effect done xs rs xs rs
done_lem = record { runs = λ m h. (m, refl, h, refl) }

pub peek_then :
    (k : ℕ → Act) (v : ℕ) {xs rs ys ts : List ℕ}
    → Effect (k v) (v ∷ xs) rs ys ts
    → Effect (ds_peek >>= k) (v ∷ xs) rs ys ts
peek_then k v next = record { runs = λ m h. rw (ds_peek-cons v h.on_data) (next.runs m h) }

pub pick_then :
    (k : ℕ → Act) (n : ℕ) {xs rs ys ts : List ℕ}
    → n < length xs
    → Effect (k (get_or xs n 0)) xs rs ys ts
    → Effect (ds_pick n >>= k) xs rs ys ts
pick_then k n within next = record {
  runs = λ m h. rw (ds_pick-below n h.on_data within) (next.runs m h);
}

pub depth_then :
    (k : ℕ → Act) {xs rs ys ts : List ℕ}
    → Effect (k (length xs)) xs rs ys ts
    → Effect (ds_depth >>= k) xs rs ys ts
unfolding ds_depth
depth_then k {ys} {ts} next = record {
  runs = λ m h.
      subst
        (λ n.
          (g : Vm) × (k n m ≡ ok tt g)
          × Holds g ys ts
          × (other_than_stacks g ≡ other_than_stacks m))
        (length-Data h.on_data) (next.runs m h);
}

pub rs_pop_then :
    (k : ℕ → Act) (v : ℕ) {xs rs ys ts : List ℕ}
    → Effect (k v) xs rs ys ts
    → Effect (rs_pop >>= k) xs (v ∷ rs) ys ts
rs_pop_then k v next = record {
  runs = λ m h.
      let (g, e, d, o) = rs_pop-cons v h.on_returns in
      let (g', e', d', o') =
        next.runs g (record { on_data = Data-frame o h.on_data; on_returns = d }) in
      (g', rw e e', d', o' ∙ ap other_than_data o);
}

pub rs_peek_then :
    (k : ℕ → Act) (v : ℕ) {xs rs ys ts : List ℕ}
    → Effect (k v) xs (v ∷ rs) ys ts
    → Effect (rs_peek >>= k) xs (v ∷ rs) ys ts
rs_peek_then k v next = record { runs = λ m h. rw (rs_peek-cons v h.on_returns) (next.runs m h) }

pub rs_push_lem : (v : ℕ) {xs rs : List ℕ} → length rs < 256 → Effect (rs_push v) xs rs xs (v ∷ rs)
rs_push_lem v room = record {
  runs = λ m h.
      let (g, e, d, o) = rs_push-room v h.on_returns room in
      (g, e, record { on_data = Data-frame o h.on_data; on_returns = d }, ap other_than_data o);
}
