-- ===== src/Devices/Disk.antt =====
-- kernel/drivers/disk.c: the port writes of a sector read, and the buffer that its words fill.
use capstone_myos.Prelude.{
  ℕ, zero, suc, ◌+◌, ◌*◌, ◌/◌, ◌%◌, ◌^◌, List, [], ◌∷◌, update, bit_and, bit_or,
}
use capstone_myos.Strings.{Mem}

-- The writes, between the two waits for the disk.
unfoldable pub sector_request : ℕ → List (ℕ × ℕ)
sector_request lba =
    (0x1F6, bit_or 0xE0 (bit_and (lba / 2 ^ 24) 0x0F))
    ∷ (0x1F2, 1)
    ∷ (0x1F3, lba % 2 ^ 8)
    ∷ (0x1F4, lba / 2 ^ 8 % 2 ^ 8)
    ∷ (0x1F5, lba / 2 ^ 16 % 2 ^ 8)
    ∷ (0x1F7, 0x20)
    ∷ []

-- The loop that stores `n` words from word `i` on, low byte first.
unfoldable pub store_words : ℕ → (ℕ → ℕ) → ℕ → Mem → Mem
store_words zero port i dma = dma
store_words (suc n) port i dma =
    store_words n port (i + 1)
      (update (update dma (i * 2) (port i % 2 ^ 8)) (i * 2 + 1) (port i / 2 ^ 8 % 2 ^ 8))

-- read_disk_sector up to the copy, for the words that the data port delivers.
unfoldable pub read_words : (ℕ → ℕ) → Mem → Mem
read_words port dma = store_words 256 port 0 dma
