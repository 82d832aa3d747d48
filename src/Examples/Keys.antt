-- ===== src/Examples/Keys.antt =====
-- The keyboard at concrete states.
use vector_forth_kernel.Base.{refl, false, arith, replicate}
use vector_forth_kernel.Kernel.Keyboard.{
  Keyboard, kbd_buffer_put, keyboard_getchar, keyboard_handler_c,
}
use vector_forth_kernel.Kernel.Keyboard.Queue.{
  IsQueue, Added, Taken, contents, kbd_buffer_put-Added, keyboard_getchar-Taken,
}
use vector_forth_kernel.Kernel.Keyboard.Keys.{Reacts, keyboard_handler_c-Reacts}

-- One character waits at the end of the buffer.
abbrev pub keyboard : Keyboard
keyboard = record {
  buffer = replicate 256 65;
  head = 0;
  tail = 255;
  shift_pressed = false;
  ctrl_pressed = false;
  alt_pressed = false;
  caps_lock = false;
}

keyboard-IsQueue : IsQueue keyboard
keyboard-IsQueue = record { size = refl; head_within = omega arith; tail_within = omega arith }

kbd_buffer_put-Added_example : Added keyboard 66 (kbd_buffer_put 66 keyboard)
kbd_buffer_put-Added_example = kbd_buffer_put-Added 66 keyboard keyboard-IsQueue

keyboard_getchar-Taken_example : Taken (contents keyboard) (keyboard_getchar keyboard)
keyboard_getchar-Taken_example = keyboard_getchar-Taken keyboard keyboard-IsQueue

-- The key Q.
keyboard_handler_c-Reacts_example : Reacts 0x10 keyboard (keyboard_handler_c 0x10 keyboard)
keyboard_handler_c-Reacts_example =
    keyboard_handler_c-Reacts 0x10 keyboard (omega arith) keyboard-IsQueue
