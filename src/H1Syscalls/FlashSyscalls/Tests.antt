-- ===== src/H1Syscalls/FlashSyscalls/Tests.antt =====
-- flash.rs on concrete calls, over the driver of the flash.
use tock_on_titan.Common.{ℕ, ◌+◌, ◌*◌, true, List, [], ◌∷◌, none, some, length, ◌≡◌, refl, arith}
use tock_on_titan.ReturnCode.{success, success_with_value}
use tock_on_titan.NvCounter.Device
use tock_on_titan.NvCounter.Device.{erased_word}
use tock_on_titan.Flash.VirtualFlash.{Flash}
use tock_on_titan.H1Syscalls.Grant.{Grant, enter, entered}
use tock_on_titan.H1Syscalls.ListGrant.{in_list, opened_in_list}
use tock_on_titan.H1Syscalls.FlashSyscalls.{
  AppData, new_app, FlashSyscalls, words_of, read, write, command, tell_user, write_done,
}
use tock_on_titan.H1Syscalls.FlashSyscalls.Read.{ReadsFrom, read_gives_flash}
use tock_on_titan.H1Syscalls.FlashSyscalls.Write.{answered, wrote, short_after_write}
use tock_on_titan.H1Syscalls.FlashSyscalls.CurrentUser.{
  commanded, erased, TellsOnly, steps, steps-TellsOnly,
}

-- A flash that is written at once, and accepts everything.
abbrev quick : Flash (ℕ → ℕ)
quick = record {
  erase = λ page words. (success, λ i. erased_word);
  read = λ word words. success_with_value (words word);
  write = λ target buffer words. (success, none, Device.write_words target buffer words);
}

abbrev with_memory : Grant new_app
with_memory = in_list (λ app. app.appid) new_app

-- Processes 1 and 2 share buffers of 5 and 8 bytes.
abbrev app_1 : AppData
app_1 = record {
  appid = 1;
  write_buffer = some (1 ∷ 2 ∷ 3 ∷ 4 ∷ 5 ∷ []);
  read_buffer = some (0 ∷ 0 ∷ 0 ∷ 0 ∷ 0 ∷ []);
  operation_done_callback = true;
}

abbrev app_2 : AppData
app_2 = record {
  appid = 2;
  write_buffer = some (1 ∷ 2 ∷ 3 ∷ 4 ∷ 5 ∷ 6 ∷ 7 ∷ 8 ∷ []);
  read_buffer = none;
  operation_done_callback = true;
}

abbrev counting : ℕ → ℕ
counting i = 0x01020304 + i

abbrev two_processes : FlashSyscalls (ℕ → ℕ)
two_processes = record {
  cells = record {
    device = counting;
    write_buffer = some (0 ∷ 0 ∷ 0 ∷ []);
    current_user = none;
    scheduled = [];
  };
  apps = app_1 ∷ app_2 ∷ [];
}

read_gives_flash_example :
    (buffer' : List ℕ) × (read quick with_memory 1 8 9 two_processes ≡ (
      success,
      record two_processes { apps = record app_1 { read_buffer = some buffer' } ∷ app_2 ∷ [] },
    ))
    × ReadsFrom counting 8 5 0 (0 ∷ 0 ∷ 0 ∷ 0 ∷ 0 ∷ []) buffer'
unfolding opened_in_list
read_gives_flash_example =
    read_gives_flash quick with_memory 1 8 9 (0 ∷ 0 ∷ 0 ∷ 0 ∷ 0 ∷ []) counting two_processes []
      (app_2 ∷ []) app_1 refl refl (λ i a b. refl) refl (omega arith)

-- Process 1 writes a word, and process 2 wants to write two.
short_after_write_example :
    ((write quick with_memory 1 0 (4 * 1) two_processes).0 ≡ success)
    × (length (words_of 1 (1 ∷ 2 ∷ 3 ∷ 4 ∷ 5 ∷ 6 ∷ 7 ∷ 8 ∷ [])) ≡ 1)
    × (write quick with_memory 2 16
          (4 * 2)
          (wrote quick with_memory 1 0 1 (1 ∷ 2 ∷ 3 ∷ 4 ∷ 5 ∷ []) success two_processes)
        ≡ answered quick with_memory
            (wrote quick with_memory 1 0 1 (1 ∷ 2 ∷ 3 ∷ 4 ∷ 5 ∷ []) success two_processes)
            (app_1 ∷ app_2 ∷ [])
            (quick.write 4
              (words_of 1 (1 ∷ 2 ∷ 3 ∷ 4 ∷ 5 ∷ 6 ∷ 7 ∷ 8 ∷ []))
              (wrote quick with_memory 1 0 1
                (1 ∷ 2 ∷ 3 ∷ 4 ∷ 5 ∷ [])
                success
                two_processes).cells.device))
unfolding opened_in_list write enter entered write_done tell_user
short_after_write_example =
    short_after_write quick with_memory 1 0 1 (1 ∷ 2 ∷ 3 ∷ 4 ∷ 5 ∷ []) (0 ∷ 0 ∷ 0 ∷ [])
      two_processes [] (app_2 ∷ []) app_1
      (Device.write_words 0 (words_of 1 (1 ∷ 2 ∷ 3 ∷ 4 ∷ 5 ∷ [])) counting) success refl refl refl
      refl (omega arith) (omega arith) refl 2 16 2 (1 ∷ 2 ∷ 3 ∷ 4 ∷ 5 ∷ 6 ∷ 7 ∷ 8 ∷ []) (app_1 ∷ [])
      [] app_2 refl refl refl (omega arith) (omega arith)

-- Process 1 asks whether the driver is present; process 2 erases a page.
steps-TellsOnly_example : TellsOnly 1 (
    steps quick with_memory
      (commanded 1 3 0 2 ∷ erased success ∷ [])
      (command quick with_memory 0 0 0 1 two_processes).1)
steps-TellsOnly_example =
    steps-TellsOnly quick with_memory 0 0 0 1 (commanded 1 3 0 2 ∷ erased success ∷ [])
      two_processes refl refl
