-- ===== src/KernelLd.antt =====
-- scripts/kernelld.py: writes os/kernel_app.ld, the linker script of a kernel with its programs.
pub mod Shape
mod Tests
use os_project_signal.Prelude.{ℕ, zero, suc, ◌+◌, String, List, [], ◌∷◌, ◌++◌}
use os_project_signal.Prelude.Text.{concat, decimal, numeral}

abbrev pub head_text : String
head_text = concat (
    "OUTPUT_ARCH(riscv)\n" ∷ "ENTRY(_entry)\n" ∷ "BASE_ADDRESS = 0x80200000;\n" ∷ "\n"
    ∷ "SECTIONS\n" ∷ "{\n" ∷ "    . = BASE_ADDRESS;\n" ∷ "    skernel = .;\n" ∷ "\n"
    ∷ "    s_text = .;\n" ∷ "    .text : {\n" ∷ "        *(.text.entry)\n"
    ∷ "        *(.text .text.*)\n" ∷ "        . = ALIGN(0x1000);\n" ∷ "        *(trampsec)\n"
    ∷ "        . = ALIGN(0x1000);\n" ∷ "    }\n" ∷ "\n" ∷ "    . = ALIGN(4K);\n"
    ∷ "    e_text = .;\n" ∷ "    s_rodata = .;\n" ∷ "    .rodata : {\n"
    ∷ "        *(.rodata .rodata.*)\n" ∷ "    }\n" ∷ "\n" ∷ "    . = ALIGN(4K);\n"
    ∷ "    e_rodata = .;\n" ∷ "    s_data = .;\n" ∷ "    .data : {\n" ∷ "        *(.data)\n" ∷ [])

abbrev pub tail_text : String
tail_text = concat (
    "\n" ∷ "        . = ALIGN(0x1000);\n" ∷ "        *(.data.*)\n" ∷ "        *(.sdata .sdata.*)\n"
    ∷ "    }\n" ∷ "    \n" ∷ "    . = ALIGN(4K);\n" ∷ "    e_data = .;\n" ∷ "    .bss : {\n"
    ∷ "        *(.bss.stack)\n" ∷ "        s_bss = .;\n" ∷ "        *(.bss .bss.*)\n"
    ∷ "        *(.sbss .sbss.*)\n" ∷ "    }\n" ∷ "\n" ∷ "    . = ALIGN(4K);\n" ∷ "    e_bss = .;\n"
    ∷ "    ekernel = .;\n" ∷ "\n" ∷ "    /DISCARD/ : {\n" ∷ "        *(.eh_frame)\n" ∷ "    }\n"
    ∷ "}\n" ∷ [])

-- the two writes of the loop
abbrev pub align_line : String
align_line = "        . = ALIGN(0x1000);\n"

unfoldable pub data_line : ℕ → String
unfolding numeral
data_line idx = concat ("        *(.data.app" ∷ decimal idx ∷ ")\n" ∷ [])

-- for (idx, _) in enumerate(apps), behind what has been written
unfoldable pub write_apps : ℕ → List String → List String → List String
unfolding data_line
write_apps idx [] written = written
write_apps idx (app ∷ apps) written =
    write_apps (idx + 1) apps (written ++ align_line ∷ data_line idx ∷ [])

-- The texts that the script writes, in order; `apps` is what `os.listdir` returns.
unfoldable pub write_script : List String → List String
unfolding write_apps
write_script apps = write_apps 0 apps (head_text ∷ []) ++ tail_text ∷ []
