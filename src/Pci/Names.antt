-- ===== src/Pci/Names.antt =====
-- The tables of names of ASNU/src/PCI/pci.c: `PciGetDeviceManufacturer` and `PciGetDeviceName`.
use Prim.Native.String.{String}
use terracotta_os.Prelude.{ℕ, List, [], ◌∷◌, ◌==◌, if◌then◌else◌}

-- A `switch` whose cases return, with what is returned behind it.
unfoldable pub select : List (ℕ × String) → ℕ → String → String
select [] key other = other
select ((k, name) ∷ rest) key other = if k == key then name else select rest key other

unfoldable pub manufacturers : List (ℕ × String)
manufacturers =
    (0x8086, "Intel Corporation")
    ∷ (0x10de, "NVIDIA Corporation")
    ∷ (0x1002, "Advanced Micro Devices (AMD)")
    ∷ (0x1022, "AMD (Advanced Micro Devices)")
    ∷ (0x10ec, "Realtek Semiconductor Corp.")
    ∷ (0x14e4, "Broadcom Inc.")
    ∷ (0x104c, "Texas Instruments")
    ∷ (0x168c, "Qualcomm Atheros")
    ∷ (0x1969, "Qualcomm Attansic (Atheros)")
    ∷ (0x10b7, "3Com Corporation")
    ∷ (0x1217, "O2 Micro Inc.")
    ∷ (0x1033, "NEC Corporation")
    ∷ (0x1106, "VIA Technologies, Inc.")
    ∷ (0x10b9, "ULi / ALi Corporation")
    ∷ (0x10f1, "Silicon Integrated Systems (SiS)")
    ∷ (0x1af4, "Red Hat, Inc. (VirtIO)")
    ∷ (0x1b36, "QEMU / Red Hat, Inc.")
    ∷ (0x15ad, "VMware, Inc.")
    ∷ (0x1274, "Ensoniq (Creative)")
    ∷ (0x1095, "Silicon Image, Inc.")
    ∷ (0x105a, "Promise Technology, Inc.")
    ∷ (0x1c5c, "TP-Link Technologies Co., Ltd.")
    ∷ (0x13fe, "Kingston Technology Company, Inc.")
    ∷ (0x1a03, "ASPEED Technology, Inc.")
    ∷ (0x1b4b, "Marvell Technology Group Ltd.")
    ∷ (0x14f1, "Conexant Systems, Inc.")
    ∷ (0x1000, "LSI Logic / Symbios Logic")
    ∷ (0x111d, "IDT (Integrated Device Technology)")
    ∷ (0x1912, "Renesas Electronics Corporation")
    ∷ (0x1ae0, "Google LLC")
    ∷ (0x1c58, "ASMedia Technology Inc.")
    ∷ (0x10a9, "SGI (Silicon Graphics)")
    ∷ (0x17cb, "Skyworks Solutions, Inc.")
    ∷ (0x11ab, "Marvell Semiconductor, Inc.")
    ∷ (0x1de1, "Tekram Technology Co., Ltd.")
    ∷ (0x1b21, "ASMedia Technology Inc.")
    ∷ (0x1d6a, "JMicron Technology Corp.")
    ∷ (0x1e0f, "Shenzhen Evision Semiconductor Ltd.")
    ∷ []

-- `PciGetDeviceManufacturer`
unfoldable pub manufacturer : ℕ → String
unfolding select manufacturers
manufacturer vendor_id = select manufacturers vendor_id "Unknown Vendor"

unfoldable pub intel_devices : List (ℕ × String)
intel_devices =
    (0x100e, "Intel PRO/1000 MT Desktop (82540EM)")
    ∷ (0x10d3, "Intel 82574L Gigabit Ethernet")
    ∷ (0x10f5, "Intel 82547GI Gigabit Ethernet")
    ∷ (0x1502, "Intel 82579LM Gigabit Ethernet")
    ∷ (0x10fb, "Intel 82599 10-Gigabit Ethernet")
    ∷ (0x2922, "Intel ICH9 SATA AHCI Controller")
    ∷ (0x1237, "Intel 82441FX PMC (Q35)")
    ∷ (0x7000, "Intel 82371SB PIIX3 ISA Bridge")
    ∷ (0x2415, "Intel 82801AA AC'97 Audio Controller")
    ∷ []

unfoldable pub realtek_devices : List (ℕ × String)
realtek_devices =
    (0x8139, "Realtek RTL8139 Fast Ethernet")
    ∷ (0x8168, "Realtek RTL8111/8168/8411 PCIe Gigabit Ethernet")
    ∷ (0x5229, "Realtek PCI-E Card Reader")
    ∷ []

unfoldable pub nvidia_devices : List (ℕ × String)
nvidia_devices =
    (0x1c82, "NVIDIA GeForce GTX 1050")
    ∷ (0x1c03, "NVIDIA GeForce GTX 1060 (6GB)")
    ∷ (0x1c02, "NVIDIA GeForce GTX 1060 (3GB)")
    ∷ (0x1b80, "NVIDIA GeForce GTX 1080")
    ∷ (0x2486, "NVIDIA GeForce RTX 3060")
    ∷ []

unfoldable pub amd_graphics_devices : List (ℕ × String)
amd_graphics_devices =
    (0x67df, "AMD Radeon RX 580")
    ∷ (0x7340, "AMD Radeon RX 6800")
    ∷ (0x743f, "AMD Radeon RX 7900 XT")
    ∷ []

unfoldable pub virtio_devices : List (ℕ × String)
virtio_devices =
    (0x1000, "VirtIO Network Device")
    ∷ (0x1001, "VirtIO Block Device")
    ∷ (0x1002, "VirtIO Balloon Device")
    ∷ (0x1003, "VirtIO Console")
    ∷ (0x1041, "VirtIO SCSI Device")
    ∷ (0x1050, "VirtIO Input Device")
    ∷ []

unfoldable pub vmware_devices : List (ℕ × String)
vmware_devices =
    (0x07a0, "VMware VMXNET3 Ethernet Controller")
    ∷ (0x0740, "VMware SVGA II Adapter")
    ∷ (0x0405, "VMware Virtual USB Host Controller")
    ∷ []

unfoldable pub qemu_devices : List (ℕ × String)
qemu_devices = (0x0001, "QEMU Standard VGA") ∷ (0x0002, "QEMU Ethernet Controller") ∷ []

unfoldable pub broadcom_devices : List (ℕ × String)
broadcom_devices = (0x1659, "Broadcom NetXtreme BCM5721 Gigabit Ethernet") ∷ []

unfoldable pub amd_devices : List (ℕ × String)
amd_devices = (0x2000, "AMD Lance Ethernet Controller") ∷ (0x7901, "AMD FCH SATA Controller") ∷ []

-- `PciGetDeviceName`
unfoldable pub device_name : ℕ → ℕ → String
unfolding select
device_name vendor_id device_id =
    if vendor_id == 0x8086
    then select intel_devices device_id "Unknown Device"
    else if vendor_id == 0x10ec
    then select realtek_devices device_id "Unknown Device"
    else if vendor_id == 0x10de
    then select nvidia_devices device_id "Unknown Device"
    else if vendor_id == 0x1002
    then select amd_graphics_devices device_id "Unknown Device"
    else if vendor_id == 0x1af4
    then select virtio_devices device_id "Unknown Device"
    else if vendor_id == 0x15ad
    then select vmware_devices device_id "Unknown Device"
    else if vendor_id == 0x1b36
    then select qemu_devices device_id "Unknown Device"
    else if vendor_id == 0x14e4
    then select broadcom_devices device_id "Unknown Device"
    else if vendor_id == 0x1022
    then select amd_devices device_id "Unknown Device"
    else "Unknown Device"
