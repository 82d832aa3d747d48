-- ===== src/Examples/Link.antt =====
-- A concrete linking of the C functions, for the examples: each 16 bytes behind the last.
pub mod Position
pub mod Table
use vector_forth_kernel.Base.{ℕ, ◌+◌, ◌-◌, ◌*◌, ◌/◌, ◌≤◌, ◌<◌, ◌≡◌, refl, Option, some, arith}
use vector_forth_kernel.Vm.Dict.{dict_virt_base}
use vector_forth_kernel.Vm.Native.{Native, Image, kernel_virt_load}
use vector_forth_kernel.Examples.Link.Position.{position, position-lt}
use vector_forth_kernel.Examples.Link.Table.{natives, nth, nth-position}

unfoldable pub addr_of : Native → ℕ
unfolding position
addr_of n = kernel_virt_load + 16 * position n

unfoldable pub native_of : ℕ → Option Native
unfolding nth
native_of a = nth natives ((a - kernel_virt_load) / 16)

pub native_of-addr_of : (n : Native) → native_of (addr_of n) ≡ some n
unfolding native_of addr_of
native_of-addr_of n =
    let at : (kernel_virt_load + 16 * position n - kernel_virt_load) / 16 ≡ position n =
      omega arith in
    rw at (nth-position n)

pub addr_of-above : (n : Native) → kernel_virt_load ≤ addr_of n
unfolding addr_of
addr_of-above n = omega arith

pub addr_of-below : (n : Native) → addr_of n < dict_virt_base
unfolding addr_of
addr_of-below n = let few = position-lt n in omega arith

abbrev pub image : Image
image = record {
  addr = addr_of;
  native_at = native_of;
  native_at-addr = native_of-addr_of;
  addr_above = addr_of-above;
  addr_below = addr_of-below;
}
