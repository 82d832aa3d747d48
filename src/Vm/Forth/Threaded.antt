-- ===== src/Vm/Forth/Threaded.antt =====
-- `forth_inner` and `forth_execute` run threaded code to its effect.
use mathlib.Core.Path.{subst}
use vector_forth_kernel.Base.{
  ℕ, suc, ◌+◌, ◌%◌, ◌<◌, ◌≡◌, ◌≢◌, refl, ap, sym, ◌∙◌, some, List, [], ◌∷◌, arith, length, ◌==◌,
  if◌then◌else◌, ==_refl, ne→not-==, le→leb, lt→ltb,
}
use vector_forth_kernel.Base.Word.{two64}
use vector_forth_kernel.Base.Memory.{Mem, load64}
use vector_forth_kernel.Vm.State.{Vm, Act, ok, done, ◌>>=◌, ◌>>◌}
use vector_forth_kernel.Vm.Stack.{ds_push, rs_push, rs_pop, ip_set, ip_get, ip_fetch_advance}
use vector_forth_kernel.Vm.Stack.View.{rs_pop-cons}
use vector_forth_kernel.Vm.Effect.{Holds, push, rs_push_lem, Data-frame}
use vector_forth_kernel.Vm.Dict.{
  dict_get_code_field, dict_get_param_field, dict_virt_base, dict_size,
}
use vector_forth_kernel.Vm.Native.{Native, Image}
use vector_forth_kernel.Vm.Words.StackWord.{StackWord, run_stack_word}
use vector_forth_kernel.Vm.Words.Effects.{run_stack_word-Spec}
use vector_forth_kernel.Vm.Words.Compile.{sentinel_exit}
use vector_forth_kernel.Vm.Forth.{
  Devices, run_native, call_code, run_word, enter_colon, forth_inner, forth_execute, forth_eval,
}
use vector_forth_kernel.Vm.Forth.Code.{
  Code, IsEntry, CodeAt, Does, stops, pushes, calls, nests, fuel_for,
}

-- All of the state but the stacks and the instruction pointer.
abbrev pub quiet : Vm → Vm
quiet m = record m { ds = []; dsp = 0; rs = []; rsp_idx = 0; ip = 0 }

-- The state behind a fetch.
abbrev pub advance : Vm → Vm
advance m = record m { ip = (m.ip + 8) % two64 }

Holds-ip : {m : Vm} {xs rs : List ℕ} (a : ℕ) → Holds m xs rs → Holds (record m { ip = a }) xs rs
Holds-ip a h = record {
  on_data = record { stack = h.on_data.stack; holds = h.on_data.holds };
  on_returns = record { stack = h.on_returns.stack; holds = h.on_returns.holds };
}

enter_colon_lem :
    (param ret : ℕ) (m g : Vm)
    → m.ip ≡ ret
    → rs_push ret m ≡ ok tt g
    → enter_colon param m ≡ ok tt (record g { ip = param })
unfolding enter_colon ip_get ip_set
enter_colon_lem param ret m g at eg =
    let pushed : rs_push m.ip m ≡ ok tt g = subst (λ r. rs_push r m ≡ ok tt g) (sym at) eg in
    rw pushed

module _ (img : Image) (dev : Devices) where
  addr-injective : (a b : Native) → img.addr a ≡ img.addr b → a ≡ b
  addr-injective a b e =
      let same : some a ≡ some b =
        sym (img.native_at-addr a) ∙ ap (λ n. img.native_at n) e ∙ img.native_at-addr b in
      cc

  pub addr_ne : (a b : Native) → a ≢ b → img.addr a ≢ img.addr b
  addr_ne a b ne e = ne (addr-injective a b e)

  pub not_sentinel : (n : Native) → img.addr n ≢ sentinel_exit
  not_sentinel n e = let above = img.addr_above n in omega arith

  abbrev inner : ℕ → Act
  inner = forth_inner img dev

  abbrev execute : ℕ → ℕ → Act
  execute = forth_execute img dev

  -- What follows the code: the end of the loop at NULL, or more code.
  abbrev after : ℕ → ℕ → Act
  after ret k = if ret == 0 then done else inner k

  round_exit :
      (k : ℕ) (m : Vm)
      → load64 m.mem m.ip ≡ sentinel_exit
      → inner (suc k) m
        ≡ (do saved_ip ← rs_pop; ip_set saved_ip; if saved_ip == 0 then done else inner k)
            (advance m)
  unfolding forth_inner ip_fetch_advance
  round_exit k m e = rw e

  round_lit :
      (k : ℕ) (m : Vm)
      → load64 m.mem m.ip ≡ img.addr Native.do_literal
      → inner (suc k) m ≡ (do v ← ip_fetch_advance; ds_push v; inner k) (advance m)
  unfolding forth_inner ip_fetch_advance
  round_lit k m e = rw (
    e,
    ne→not-== (img.addr Native.do_literal) sentinel_exit (not_sentinel Native.do_literal),
    ==_refl (img.addr Native.do_literal),
  )

  round_word :
      (k : ℕ) (m : Vm) (entry code : ℕ)
      → load64 m.mem m.ip ≡ entry
      → IsEntry m.mem entry code
      → inner (suc k) m
        ≡ (run_word img dev enter_colon (execute k) (forth_eval img dev k) entry >> inner k)
            (advance m)
  unfolding forth_inner ip_fetch_advance
  round_word k m entry code e h =
      let above = h.above in
      let below = h.below in
      let literal_below = img.addr_below Native.do_literal in
      rw (
        e,
        ne→not-== entry sentinel_exit (λ q. omega arith),
        ne→not-== entry (img.addr Native.do_literal) (λ q. omega arith),
        le→leb dict_virt_base entry above,
        lt→ltb entry (dict_virt_base + dict_size) below,
      )

  -- A primitive's code field leads to its C function.
  run_word-stack :
      (k : ℕ) (w : StackWord) (entry : ℕ) (m : Vm)
      → load64 m.mem (dict_get_code_field m.mem entry) ≡ img.addr (Native.stack w)
      → run_word img dev enter_colon (execute k) (forth_eval img dev k) entry m ≡ run_stack_word w m
  unfolding run_word
  run_word-stack k w entry m e =
      rw
        (
          e,
          ne→not-== _ _ (addr_ne (Native.stack w) Native.do_colon (λ q. cc)),
          ne→not-== _ _ (addr_ne (Native.stack w) Native.do_variable (λ q. cc)),
          ne→not-== _ _ (addr_ne (Native.stack w) Native.do_constant (λ q. cc)),
          img.native_at-addr (Native.stack w),
          call_code,
        )
        (unfold run_native in refl)

  run_word-colon :
      (enter execute : ℕ → Act) (k entry : ℕ) (m : Vm)
      → load64 m.mem (dict_get_code_field m.mem entry) ≡ img.addr Native.do_colon
      → run_word img dev enter execute (forth_eval img dev k) entry m
        ≡ enter (dict_get_param_field m.mem entry) m
  unfolding run_word
  run_word-colon enter execute k entry m e = rw (e, ==_refl (img.addr Native.do_colon))

  enter_step :
      (b entry a : ℕ) (m g : Vm)
      → load64 m.mem (dict_get_code_field m.mem entry) ≡ img.addr Native.do_colon
      → (m.ip + 8) % two64 ≡ a + 8
      → rs_push (a + 8) (advance m) ≡ ok tt g
      → (run_word img dev enter_colon (execute b) (forth_eval img dev b) entry >> inner b)
          (advance m)
        ≡ inner b (record g { ip = dict_get_param_field m.mem entry })
  enter_step b entry a m g e to eg =
      let entered =
        enter_colon_lem (dict_get_param_field m.mem entry) (a + 8) (advance m) g to eg in
      rw (run_word-colon enter_colon (execute b) b entry (advance m) e, entered)

  -- The loop comes to the state `g` with `ys` on the data stack, the exit taken and all but the
  -- stacks as before, and goes on as `after`.
  abbrev Finishes : Vm → ℕ → ℕ → ℕ → List ℕ → List ℕ → Type 0
  Finishes m f k ret ys rs =
      (g : Vm) × Holds g ys rs × (g.ip ≡ ret) × (quiet g ≡ quiet m) × (inner f m ≡ after ret k g)

  exit-Finishes :
      (k ret : ℕ) (xs rs : List ℕ) (m : Vm)
      → Holds m xs (ret ∷ rs)
      → load64 m.mem m.ip ≡ sentinel_exit
      → Finishes m (suc k) k ret xs rs
  exit-Finishes k ret xs rs m h e =
      let (g, eg, r, o) = rs_pop-cons ret (Holds-ip ((m.ip + 8) % two64) h).on_returns in
      let final = record g { ip = ret } in
      let step : (do saved_ip ← rs_pop; ip_set saved_ip; if saved_ip == 0 then done else inner k)
            (advance m)
          ≡ after ret k final =
        rw eg (unfold ip_set in refl) in
      (
        final,
        Holds-ip ret (record {
          on_data = Data-frame o (Holds-ip ((m.ip + 8) % two64) h).on_data;
          on_returns = r;
        }),
        refl,
        ap quiet o,
        round_exit k m e ∙ step,
      )

  inner_Does :
      {d : ℕ} {code : Code} {xs ys : List ℕ} (k : ℕ)
      → Does d code xs ys
      → (ret a : ℕ) (rs : List ℕ) (mem : Mem) (m : Vm) → suc (length rs) ≡ d
      → m.mem ≡ mem
      → m.ip ≡ a
      → Holds m xs (ret ∷ rs)
      → CodeAt img mem a code
      → Finishes m (fuel_for code k) k ret ys rs
  inner_Does k stops ret a rs mem m depth em ei h c = exit-Finishes k ret _ rs m h (rw (em, ei) c.1)
  inner_Does k (pushes {v} {rest} {xs} room more) ret a rs mem m depth em ei h c =
      let in_word = c.0 in
      let to : (m.ip + 8) % two64 ≡ a + 8 = omega arith in
      let to' : ((m.ip + 8) % two64 + 8) % two64 ≡ a + 8 + 8 = omega arith in
      let value : load64 m.mem ((m.ip + 8) % two64) ≡ v = rw (em, to) c.2 in
      let (g, eg, h', o) = (push v room).runs (advance (advance m)) (Holds-ip _ h) in
      let (g', h'', at, q, r) =
        inner_Does k more ret (a + 8 + 8) rs mem g depth (ap (λ s. s.mem) o ∙ em)
          (ap (λ s. s.ip) o ∙ to') h' c.3 in
      let step : (do w ← ip_fetch_advance; ds_push w; inner (fuel_for rest k)) (advance m)
          ≡ inner (fuel_for rest k) g =
        unfold ip_fetch_advance in rw (value, eg) in
      (g', h'', at, q ∙ ap quiet o, round_lit (fuel_for rest k) m (rw (em, ei) c.1) ∙ step ∙ r)
  inner_Does k (calls {entry} {w} {rest} spec room words more) ret a rs mem m depth em ei h c =
      let in_word = c.0 in
      let f = fuel_for rest k in
      let to : (m.ip + 8) % two64 ≡ a + 8 = omega arith in
      let header : IsEntry m.mem entry (img.addr (Native.stack w)) = rw em c.2 in
      let (g, eg, h', o) =
        (run_stack_word-Spec (ret ∷ rs) spec room words).runs (advance m) (Holds-ip _ h) in
      let (g', h'', at, q, r) =
        inner_Does k more ret (a + 8) rs mem g depth (ap (λ s. s.mem) o ∙ em)
          (ap (λ s. s.ip) o ∙ to) h' c.3 in
      let step : (run_word img dev enter_colon (execute f) (forth_eval img dev f) entry >> inner f)
            (advance m)
          ≡ inner f g =
        rw (run_word-stack f w entry (advance m) header.code_at, eg) in
      (
        g',
        h'',
        at,
        q ∙ ap quiet o,
        round_word f m entry (img.addr (Native.stack w)) (rw (em, ei) c.1) header ∙ step ∙ r,
      )
  inner_Does k (nests {entry} {body} {rest} deep inside more) ret a rs mem m depth em ei h c =
      let in_word = c.0 in
      let f = fuel_for rest k in
      let b = fuel_for body f in
      let param = dict_get_param_field m.mem entry in
      let to : (m.ip + 8) % two64 ≡ a + 8 = omega arith in
      let header : IsEntry m.mem entry (img.addr Native.do_colon) = rw em c.2 in
      let body_at : CodeAt img mem param body = rw em c.3 in
      let (g, eg, h', o) =
        (rs_push_lem (a + 8) (omega arith)).runs (advance m) (Holds-ip ((m.ip + 8) % two64) h) in
      let inside_at = record g { ip = param } in
      let (g1, h1, at1, q1, r1) =
        inner_Does f inside (a + 8) param (ret ∷ rs) mem inside_at (ap suc depth)
          (ap (λ s. s.mem) o ∙ em) refl (Holds-ip param h') body_at in
      let (g2, h2, at2, q2, r2) =
        inner_Does k more ret (a + 8) rs mem g1 depth (ap (λ s. s.mem) q1 ∙ ap (λ s. s.mem) o ∙ em)
          at1 h1 c.4 in
      let step = enter_step b entry a m g header.code_at to eg in
      let back : after (a + 8) f g1 ≡ inner f g1 = rw (ne→not-== (a + 8) 0 (λ e. omega arith)) in
      (
        g2,
        h2,
        at2,
        q2 ∙ q1 ∙ ap quiet o,
        round_word b m entry (img.addr Native.do_colon) (rw (em, ei) c.1) header
            ∙ step
            ∙ r1
            ∙ back
            ∙ r2,
      )

  execute_colon :
      (f entry : ℕ) (m g : Vm)
      → load64 m.mem (dict_get_code_field m.mem entry) ≡ img.addr Native.do_colon
      → m.ip ≡ 0
      → rs_push 0 m ≡ ok tt g
      → execute (suc f) entry m ≡ inner f (record g { ip = dict_get_param_field m.mem entry })
  unfolding forth_execute
  execute_colon f entry m g e at eg =
      let entered = enter_colon_lem (dict_get_param_field m.mem entry) 0 m g at eg in
      rw (run_word-colon (λ param. enter_colon param >> inner f) (execute f) f entry m e, entered)

  -- `forth_execute` at the top level, with room on the stacks, of a colon word whose body is threaded
  -- code of literals, words of the stack and further such colon words: with enough fuel it ends, the data stack holds what the effects of the words in turn leave, the return stack is as
  -- before, the instruction pointer is NULL again, and nothing else of the state has changed.
  pub forth_execute-Does :
      {code : Code} {xs ys : List ℕ} (k entry : ℕ) (rs : List ℕ) (m : Vm)
      → length rs < 256
      → Does (suc (length rs)) code xs ys
      → m.ip ≡ 0
      → Holds m xs rs
      → IsEntry m.mem entry (img.addr Native.do_colon)
      → CodeAt img m.mem (dict_get_param_field m.mem entry) code
      → (g : Vm) × Holds g ys rs
        × (g.ip ≡ 0)
        × (quiet g ≡ quiet m)
        × (execute (suc (fuel_for code (suc k))) entry m ≡ ok tt g)
  forth_execute-Does {code} k entry rs m room does at h header c =
      let (g, eg, h', o) = (rs_push_lem 0 room).runs m h in
      let param = dict_get_param_field m.mem entry in
      let (g1, h1, at1, q1, r1) =
        inner_Does (suc k) does 0 param rs m.mem (record g { ip = param }) refl (ap (λ s. s.mem) o)
          refl (Holds-ip param h') c in
      (
        g1,
        h1,
        at1,
        q1 ∙ ap quiet o,
        execute_colon (fuel_for code (suc k)) entry m g header.code_at at eg ∙ r1,
      )
