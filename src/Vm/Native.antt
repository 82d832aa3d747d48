-- ===== src/Vm/Native.antt =====
-- The C functions whose addresses the dictionary holds, and where the linker puts them.
use vector_forth_kernel.Base.{ℕ, ◌≤◌, ◌<◌, ◌≡◌, Option, some}
use vector_forth_kernel.Vm.Dict.{dict_virt_base}
use vector_forth_kernel.Vm.Words.StackWord.{StackWord}

-- Words that only call another part of the kernel.
pub data DeviceWord : Type 0 where
  fork yield block update flush edit see status dump : DeviceWord

pub data Native : Type 0 where
  stack : StackWord → Native
  device : DeviceWord → Native
  do_colon do_literal do_variable do_constant : Native
  rt_branch rt_0branch rt_do rt_loop : Native
  to_r from_r r_fetch loop_index : Native
  fetch store cfetch cstore plus_store here allot comma c_comma : Native
  dot u_dot dot_s dot_hex emit cr space spaces type_text dot_quote paren : Native
  colon semicolon variable constant create immediate tick execute : Native
  if_word else_word then_word begin until again while_word repeat do_word loop_word : Native
  list_words clear_screen bye base decimal hex load : Native

-- `KERNEL_VIRT_BASE + KERNEL_PHYS_BASE`, where linker.ld puts the first function.
abbrev pub kernel_virt_load : ℕ
kernel_virt_load = 0xffff_8000_0010_0000

-- The addresses of the functions, which the linker chooses: each function has one, at which the
-- processor finds it, and they lie in the kernel's image, which ends below the dictionary.
pub record Image : Type 0 where
  pub addr : Native → ℕ
  pub native_at : ℕ → Option Native
  pub native_at-addr : (n : Native) → native_at (addr n) ≡ some n
  pub addr_above : (n : Native) → kernel_virt_load ≤ addr n
  pub addr_below : (n : Native) → addr n < dict_virt_base
