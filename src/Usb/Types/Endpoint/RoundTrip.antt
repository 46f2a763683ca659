-- ===== src/Usb/Types/Endpoint/RoundTrip.antt =====
-- What the attributes of an endpoint are once written as a byte and read again.
use tock_on_titan.Common.{◌≡◌, refl}
use tock_on_titan.Usb.Types.Endpoint.{
  EndpointTransferType, control, isochronous, bulk, interrupt, EndpointSynchronizationType,
  unsynchronized, asynchronous, adaptive, synchronous, EndpointUsageType, data_usage, feedback,
  explicit_feedback, reserved, EndpointAttributes, attributes_into, attributes_from, transfer_as_u8,
  synchronization_as_u8, usage_as_u8, transfer_from, synchronization_from, usage_from,
}

abbrev attributes :
    EndpointTransferType → EndpointSynchronizationType → EndpointUsageType → EndpointAttributes
attributes t s u = record { transfer = t; synchronization = s; usage = u }

-- The attributes that a host reads: those of an isochronous endpoint without their synchronization
-- and usage.
abbrev kept :
    EndpointTransferType → EndpointSynchronizationType → EndpointUsageType → EndpointAttributes
kept isochronous s u = attributes isochronous unsynchronized data_usage
kept t s u = attributes t s u

ReadsAs : EndpointTransferType → EndpointSynchronizationType → EndpointUsageType → Type 0
ReadsAs t s u = attributes_from (attributes_into (attributes t s u)) ≡ kept t s u

each_transfer :
    (s : EndpointSynchronizationType) (u : EndpointUsageType)
    → ReadsAs control s u × ReadsAs isochronous s u × ReadsAs bulk s u × ReadsAs interrupt s u
unfolding ReadsAs attributes_into attributes_from transfer_as_u8 synchronization_as_u8 usage_as_u8
    transfer_from synchronization_from usage_from
each_transfer unsynchronized data_usage = (refl, refl, refl, refl)
each_transfer unsynchronized feedback = (refl, refl, refl, refl)
each_transfer unsynchronized explicit_feedback = (refl, refl, refl, refl)
each_transfer unsynchronized reserved = (refl, refl, refl, refl)
each_transfer asynchronous data_usage = (refl, refl, refl, refl)
each_transfer asynchronous feedback = (refl, refl, refl, refl)
each_transfer asynchronous explicit_feedback = (refl, refl, refl, refl)
each_transfer asynchronous reserved = (refl, refl, refl, refl)
each_transfer adaptive data_usage = (refl, refl, refl, refl)
each_transfer adaptive feedback = (refl, refl, refl, refl)
each_transfer adaptive explicit_feedback = (refl, refl, refl, refl)
each_transfer adaptive reserved = (refl, refl, refl, refl)
each_transfer synchronous data_usage = (refl, refl, refl, refl)
each_transfer synchronous feedback = (refl, refl, refl, refl)
each_transfer synchronous explicit_feedback = (refl, refl, refl, refl)
each_transfer synchronous reserved = (refl, refl, refl, refl)

-- Attributes that are written as a byte and read again are the same, but that those of an
-- isochronous endpoint lose their synchronization and their usage.
attributes_from-attributes_into :
    (t : EndpointTransferType) (s : EndpointSynchronizationType) (u : EndpointUsageType)
    → attributes_from (attributes_into (attributes t s u)) ≡ kept t s u
unfolding ReadsAs
attributes_from-attributes_into control s u = (each_transfer s u).0
attributes_from-attributes_into isochronous s u = (each_transfer s u).1
attributes_from-attributes_into bulk s u = (each_transfer s u).2
attributes_from-attributes_into interrupt s u = (each_transfer s u).3
