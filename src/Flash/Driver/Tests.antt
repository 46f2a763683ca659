-- ===== src/Flash/Driver/Tests.antt =====
-- driver.rs at concrete operations.
use tock_on_titan.Common.{ℕ, zero, suc, ◌≡◌, refl, arith, List, [], ◌∷◌, none, some}
use tock_on_titan.ReturnCode.{success}
use tock_on_titan.NvCounter.Device
use tock_on_titan.NvCounter.Device.{
  Device, erasing, writing, erased_word, words_per_page, words_per_bank,
}
use tock_on_titan.Flash.SmartProgram.{Reading}
use tock_on_titan.Flash.SmartProgram.Outcome.{failure}
use tock_on_titan.Flash.Driver.{new_driver, program_in_progress, erase, write}
use tock_on_titan.Flash.Driver.Hardware.{
  World, erase_ended, write_ended, erase_in, write_in, alarms,
}
use tock_on_titan.Flash.Driver.Ideal.{ideal, erased_world}
use tock_on_titan.Flash.Driver.CarriesOut.{CarriesOut}
use tock_on_titan.Flash.Driver.Answers.{answers_agree}
use tock_on_titan.Flash.Driver.Write.{Writes32, write_refines, write_empty}
use tock_on_titan.Flash.Driver.Erase.{erase_refines}

abbrev confirmed : ℕ → List Reading
confirmed zero = []
confirmed (suc n) = failure 0 0 ∷ confirmed n

abbrev counter_flash : Device
counter_flash = record { words = λ i. erased_word; ongoing = none }

write_refines_example :
    (Device.write counter_flash 65536 (5 ∷ 6 ∷ [])
      ≡ (success, none, record counter_flash { ongoing = some (writing 65536 (5 ∷ 6 ∷ [])) }))
    × (w' : World) × (write_in 256000 ideal 65536 (5 ∷ 6 ∷ []) (failure 0 0) erased_world
        ≡ (success, none, w'))
    × CarriesOut
        (writing 65536 (5 ∷ 6 ∷ []))
        (write_ended (5 ∷ 6 ∷ []))
        65536
        2
        erased_world
        (alarms 256000 ideal (confirmed 9) w')
unfolding new_driver
write_refines_example =
    write_refines 256000 ideal 65536 (5 ∷ 6 ∷ []) (failure 0 0) (confirmed 9) erased_world refl refl
      (omega arith) (omega arith) (omega arith) (omega arith) (omega arith)

erase_refines_example :
    (Device.erase counter_flash 3 ≡ (success, record counter_flash { ongoing = some (erasing 3) }))
    × (w' : World) × (erase_in 256000 ideal 8388611 (failure 0 0) erased_world ≡ (success, w'))
    × CarriesOut
        (erasing 3)
        erase_ended
        1536
        512
        erased_world
        (alarms 256000 ideal (confirmed 45) w')
unfolding new_driver
erase_refines_example =
    erase_refines 256000 ideal 8388611 (failure 0 0) (confirmed 45) erased_world refl refl
      (omega arith) (omega arith)

answers_agree_example :
    ((erase 256000 255 (failure 0 0) new_driver).0 ≡ (Device.erase counter_flash 255).0)
    × ((write 256000 131072 (5 ∷ []) (failure 0 0) new_driver).0
        ≡ (Device.write counter_flash 131072 (5 ∷ [])).0)
    × ((write 256000 131072 (5 ∷ []) (failure 0 0) new_driver).1
        ≡ (Device.write counter_flash 131072 (5 ∷ [])).1)
unfolding new_driver program_in_progress
answers_agree_example =
    answers_agree 256000 (failure 0 0) new_driver counter_flash 255 131072 (5 ∷ []) refl

write_empty_example :
    Writes32 erased_world (write_in 256000 ideal 70000 [] (failure 0 0) erased_world)
unfolding new_driver
write_empty_example = write_empty 256000 ideal 70000 (failure 0 0) erased_world refl (omega arith)
