-- ===== src/Devices/Tests.antt =====
-- Configuration addresses and a DMA transfer.
use capstone_myos.Prelude.{◌≡◌, refl, ◌+◌, ◌*◌, ◌^◌, [], ◌∷◌}
use capstone_myos.Devices.Start.{IsFirstDevice, pci_scan_lem}
use capstone_myos.Devices.{pci_scan, config_address, dma_prepare_transfer}

address_fields : config_address 2 3 1 0x37 ≡ 0x80000000 + 2 * 2 ^ 16 + 3 * 2 ^ 11 + 2 ^ 8 + 0x34
unfolding config_address
address_fields = refl

-- One page from 0x12000 on channel 1.
one_page :
    dma_prepare_transfer 1 0x48 0x12000 4096
    ≡ (0x0A, 5)
      ∷ (0x0C, 0)
      ∷ (0x0B, 0x49)
      ∷ (0x02, 0)
      ∷ (0x02, 0x20)
      ∷ (0x83, 1)
      ∷ (0x03, 0xFF)
      ∷ (0x03, 0x0F)
      ∷ (0x0A, 1)
      ∷ []
unfolding dma_prepare_transfer
one_page = refl

-- A bus on which every slot answers as a sound device.
pci_scan_lem_example : IsFirstDevice (λ a. 0x10591AF4) 0 256 (pci_scan (λ a. 0x10591AF4))
pci_scan_lem_example = pci_scan_lem (λ a. 0x10591AF4)
