-- ===== src/Vm/Forth/Control.antt =====
-- What `forth_inner` does with the runtime routines that the control words compile.
use vector_forth_kernel.Base.{ℕ, suc, ◌≡◌, ◌≢◌, ne→not-==, lt→not-leb, codes}
use vector_forth_kernel.Base.Memory.{load64}
use vector_forth_kernel.Vm.State.{Vm, puts}
use vector_forth_kernel.Vm.Stack.{ip_fetch_advance}
use vector_forth_kernel.Vm.Dict.{dict_virt_base}
use vector_forth_kernel.Vm.Native.{Native, Image}
use vector_forth_kernel.Vm.Words.Compile.{sentinel_exit}
use vector_forth_kernel.Vm.Forth.{Devices, forth_inner}
use vector_forth_kernel.Vm.Forth.Threaded.{advance, addr_ne, not_sentinel}

module _ (img : Image) (dev : Devices) where
  -- A cell with the address of a C function other than `do_literal`, such as the `rt_0branch` that `IF`
  -- compiles, is no word for `forth_inner`: it prints an error and returns. The function does not run,
  -- and neither the return stack nor the data stack changes.
  pub forth_inner-function :
      (f : ℕ) (n : Native) (m : Vm)
      → n ≢ Native.do_literal
      → load64 m.mem m.ip ≡ img.addr n
      → forth_inner img dev (suc f) m ≡ puts (codes " Invalid word address!\n") (advance m)
  unfolding forth_inner ip_fetch_advance
  forth_inner-function f n m other e =
      let below = img.addr_below n in
      rw (
        e,
        ne→not-== (img.addr n) sentinel_exit (not_sentinel img dev n),
        ne→not-== (img.addr n) (img.addr Native.do_literal)
            (addr_ne img dev n Native.do_literal other),
        lt→not-leb dict_virt_base (img.addr n) below,
      )
