-- ===== src/Usb/Types/Endpoint.antt =====
-- kernel/h1/src/usb/types.rs: `EndpointAttributes`, `EndpointDescriptor` and `HidDeviceDescriptor`.
pub mod RoundTrip
use tock_on_titan.Common.{
  ℕ, ◌*◌, ◌/◌, ◌%◌, ◌^◌, bit_and, bit_or, List, [], ◌∷◌, Option, ◌==◌, if◌then◌else◌,
}
use tock_on_titan.Usb.Types.{put_all, returning}

pub data EndpointTransferType : Type 0 where
  control isochronous bulk interrupt : EndpointTransferType

pub data EndpointSynchronizationType : Type 0 where
  unsynchronized asynchronous adaptive synchronous : EndpointSynchronizationType

pub data EndpointUsageType : Type 0 where
  data_usage feedback explicit_feedback reserved : EndpointUsageType

pub record EndpointAttributes : Type 0 where
  pub transfer : EndpointTransferType
  pub synchronization : EndpointSynchronizationType
  pub usage : EndpointUsageType

-- The casts to u8.
unfoldable pub transfer_as_u8 : EndpointTransferType → ℕ
transfer_as_u8 control = 0
transfer_as_u8 isochronous = 1
transfer_as_u8 bulk = 2
transfer_as_u8 interrupt = 3

unfoldable pub synchronization_as_u8 : EndpointSynchronizationType → ℕ
synchronization_as_u8 unsynchronized = 0
synchronization_as_u8 asynchronous = 1
synchronization_as_u8 adaptive = 2
synchronization_as_u8 synchronous = 3

unfoldable pub usage_as_u8 : EndpointUsageType → ℕ
usage_as_u8 data_usage = 0
usage_as_u8 feedback = 1
usage_as_u8 explicit_feedback = 2
usage_as_u8 reserved = 3

-- `Into<u8>`
unfoldable pub attributes_into : EndpointAttributes → ℕ
attributes_into a = elim (a.transfer) [
  | isochronous ↦ transfer_as_u8 isochronous
  | transfer ↦
      bit_or (bit_or (transfer_as_u8 transfer) (synchronization_as_u8 a.synchronization * 2 ^ 2))
        (usage_as_u8 a.usage * 2 ^ 4)
]

-- The matches of `From<u8>`.
unfoldable pub transfer_from : ℕ → EndpointTransferType
transfer_from bits =
    if bits == 0
    then control
    else if bits == 1
    then isochronous
    else if bits == 2
    then bulk
    else if bits == 3
    then interrupt
    else control

unfoldable pub synchronization_from : ℕ → EndpointSynchronizationType
synchronization_from bits =
    if bits == 0
    then unsynchronized
    else if bits == 1
    then asynchronous
    else if bits == 2
    then adaptive
    else if bits == 3
    then synchronous
    else unsynchronized

unfoldable pub usage_from : ℕ → EndpointUsageType
usage_from bits =
    if bits == 0
    then data_usage
    else if bits == 1
    then feedback
    else if bits == 2
    then explicit_feedback
    else reserved

unfoldable pub attributes_from : ℕ → EndpointAttributes
attributes_from val = record {
  transfer = transfer_from (bit_and val 3);
  synchronization = synchronization_from (bit_and (val / 2 ^ 2) 3);
  usage = usage_from (bit_and (val / 2 ^ 4) 3);
}

pub record EndpointDescriptor : Type 0 where
  pub b_length : ℕ
  pub b_descriptor_type : ℕ
  pub b_endpoint_address : ℕ
  pub bm_attributes : ℕ
  pub w_max_packet_size : ℕ
  pub b_interval : ℕ

abbrev pub max_packet_size : ℕ
max_packet_size = 64

unfoldable pub new_endpoint : ℕ → EndpointAttributes → ℕ → EndpointDescriptor
new_endpoint address attributes interval = record {
  b_length = 7;
  b_descriptor_type = 4;
  b_endpoint_address = address;
  bm_attributes = attributes_into attributes;
  w_max_packet_size = max_packet_size;
  b_interval = interval;
}

unfoldable pub endpoint_into_u8_buf : EndpointDescriptor → List ℕ → Option (ℕ × List ℕ)
endpoint_into_u8_buf d buf = returning 7 (
    put_all 0
      (7
        ∷ 5
        ∷ d.b_endpoint_address
        ∷ d.bm_attributes
        ∷ d.w_max_packet_size % 256
        ∷ d.w_max_packet_size / 2 ^ 8 % 256
        ∷ d.b_interval
        ∷ [])
      buf)

pub record HidDeviceDescriptor : Type 0 where
  pub b_length : ℕ
  pub b_descriptor_type : ℕ
  pub w_release : ℕ
  pub b_country : ℕ
  pub b_descriptors : ℕ
  pub b_sub_descriptor_type : ℕ
  pub w_sub_descriptor_length : ℕ

unfoldable pub new_hid_device : HidDeviceDescriptor
new_hid_device = record {
  b_length = 9;
  b_descriptor_type = 0x21;
  w_release = 0x0100;
  b_country = 0;
  b_descriptors = 1;
  b_sub_descriptor_type = 34;
  w_sub_descriptor_length = 34;
}

unfoldable pub hid_into_u8_buf : HidDeviceDescriptor → List ℕ → Option (ℕ × List ℕ)
hid_into_u8_buf d buf = returning 9 (
    put_all 0
      (d.b_length
        ∷ d.b_descriptor_type
        ∷ d.w_release % 256
        ∷ d.w_release / 2 ^ 8 % 256
        ∷ d.b_country
        ∷ d.b_descriptors
        ∷ d.b_sub_descriptor_type
        ∷ d.w_sub_descriptor_length % 256
        ∷ d.w_sub_descriptor_length / 2 ^ 8 % 256
        ∷ [])
      buf)
